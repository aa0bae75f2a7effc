-- ===== src/Completion/Acronym.antt =====
-- The acronym test finds a subsequence: resolver/complete.rs.
use kmp_lsp.Base.{◌≡◌, ◌⊎◌, [], ◌∷◌}
use kmp_lsp.Text.{Text}

-- The first text comes out of the second by leaving characters out.
abbrev pub IsSubsequence : Text → Text → Type 0
IsSubsequence [] ws = Unit
IsSubsequence (c ∷ ps) [] = ⊥
IsSubsequence (c ∷ ps) (w ∷ ws) = ((w ≡ c) × IsSubsequence ps ws) ⊎ IsSubsequence (c ∷ ps) ws
