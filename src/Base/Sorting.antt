-- ===== src/Base/Sorting.antt =====
-- The stable sort of the standard library, by a test for "not after".
use mathlib.Core.Bool.{Bool, true, false, ◌&&◌}
use mathlib.Core.Path.{◌≡◌, refl}
use mathlib.Core.Logic.{inl, inr}
use mathlib.Core.List.{List, [], ◌∷◌}
use Prim.Native.Nat.{suc}
use native.Mathlib.Omega.{arith}
use kmp_lsp.Base.Tests.{if◌then◌else◌, Bool-cases}
use kmp_lsp.Base.Lists.{all, length}

module _ {ℓ} {A : Type ℓ} (le : A → A → Bool) where
  -- An element stays before the later ones that it is not after.
  unfoldable pub insert_by : A → List A → List A
  insert_by a [] = a ∷ []
  insert_by a (b ∷ bs) = let rest = insert_by a bs in if le a b then a ∷ b ∷ bs else b ∷ rest

  unfoldable pub sort_by : List A → List A
  sort_by [] = []
  sort_by (a ∷ as_) = insert_by a (sort_by as_)

  abbrev pub ordered : List A → Bool
  ordered [] = true
  ordered (a ∷ as_) = all (le a) as_ && ordered as_

  pub all-insert_by :
      (p : A → Bool) (a : A) (bs : List A)
      → p a ≡ true
      → all p bs ≡ true
      → all p (insert_by a bs) ≡ true
  unfolding insert_by
  all-insert_by p a [] h k = ground arith
  all-insert_by p a (b ∷ bs) h k = ground (arith, all-insert_by p a bs h)

  pub all-sort_by : (p : A → Bool) (as_ : List A) → all p as_ ≡ true → all p (sort_by as_) ≡ true
  unfolding sort_by
  all-sort_by p [] h = refl
  all-sort_by p (a ∷ as_) h = ground (arith, all-insert_by p a (sort_by as_), all-sort_by p as_)

  pub length-insert_by : (a : A) (bs : List A) → length (insert_by a bs) ≡ suc (length bs)
  unfolding insert_by
  length-insert_by a [] = refl
  length-insert_by a (b ∷ bs) = ground (arith, length-insert_by a bs)

  pub length-sort_by : (as_ : List A) → length (sort_by as_) ≡ length as_
  unfolding sort_by
  length-sort_by [] = refl
  length-sort_by (a ∷ as_) = ground (arith, length-insert_by a (sort_by as_), length-sort_by as_)

  module _ (trans : (a b c : A) → le a b ≡ true → le b c ≡ true → le a c ≡ true)
      (total : (a b : A) → le a b ≡ false → le b a ≡ true) where
    all_after :
        (a b : A) (bs : List A) → le a b ≡ true → all (le b) bs ≡ true → all (le a) bs ≡ true
    all_after a b [] h k = refl
    all_after a b (c ∷ cs) h k = ground (arith, trans a b c h, all_after a b cs h)

    insert_by-ordered : (a : A) (bs : List A) → ordered bs ≡ true → ordered (insert_by a bs) ≡ true
    unfolding insert_by
    insert_by-ordered a [] h = refl
    insert_by-ordered a (b ∷ bs) h = elim (Bool-cases (le a b)) [
      | inl e ↦ ground (arith, all_after a b bs e)
      | inr e ↦ ground (arith, insert_by-ordered a bs, all-insert_by (le b) a bs (total a b e))
    ]

    pub sort_by-ordered : (as_ : List A) → ordered (sort_by as_) ≡ true
    unfolding sort_by
    sort_by-ordered [] = refl
    sort_by-ordered (a ∷ as_) = insert_by-ordered a (sort_by as_) (sort_by-ordered as_)
