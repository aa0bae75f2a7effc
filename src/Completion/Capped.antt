-- ===== src/Completion/Capped.antt =====
-- The answer is the best part of what was collected: resolver/complete.rs.
use kmp_lsp.Base.{Bool, true, ◌&&◌, List, [], ◌∷◌, all}
use kmp_lsp.Text.{Text}

module _ {ℓ} {A : Type ℓ} (le : A → A → Bool) where
  -- What is cut off comes after everything that is kept.
  abbrev pub before : List A → List A → Bool
  before [] ys = true
  before (x ∷ xs) ys = all (le x) ys && before xs ys
