-- ===== src/Subst/Shape.antt =====
-- The comparison of type constructors.
use kmp_lsp.Base.{
  ℕ, zero, suc, ◌<◌, ◌≡◌, refl, Bool, true, Option, none, some, List, [], ◌∷◌, arith, All, length,
  ==_refl,
}
use kmp_lsp.Text.{Text}
use kmp_lsp.Text.Laws.{text_eq_refl}
use kmp_lsp.TypeText.Args.{split_top_level_commas, type_args_inner}
use kmp_lsp.Subst.{all_pairs, same_args, same_type_constructors, constructor_of, bare_type}
use kmp_lsp.TypeText.Args.Lengths.{
  split_top_level_commas-lengths, type_args_inner-length, length-bare_type, All-shorter,
}

all_pairs_self :
    (f : Text → Text → Bool) (ds : List Text)
    → All (λ d. f d d ≡ true) ds
    → all_pairs f ds ds ≡ true
all_pairs_self f [] h = refl
all_pairs_self f (d ∷ ds) (h, hs) = ground (arith, all_pairs_self f ds hs)

same_args_self :
    (f : Text → Text → Bool) (s : Text)
    → ((d : Text) → length d < length s → f d d ≡ true)
    → same_args f (type_args_inner s) (type_args_inner s) ≡ true
same_args_self f s h = go (type_args_inner s) (λ inner e. type_args_inner-length s inner e)
  where
    go :
        (o : Option Text)
        → ((inner : Text) → o ≡ some inner → length inner < length s)
        → same_args f o o ≡ true
    go none lt = refl
    go (some inner) lt = rw (==_refl (length (split_top_level_commas inner))) (
        all_pairs_self f (split_top_level_commas inner) (
          All-shorter _ (length inner) (λ d k. h d (omega (arith, lt inner refl)))
            (split_top_level_commas inner) (split_top_level_commas-lengths inner)))

-- Every type has the constructors of itself, at every depth of its arguments, with any fuel above
-- its length: a receiver written as it is declared is never refused.
same_type_constructors_self :
    (fuel : ℕ) (s : Text) (params : List Text)
    → length s < fuel
    → same_type_constructors fuel s s params ≡ true
unfolding same_type_constructors
same_type_constructors_self zero s params h = absurd (omega arith)
same_type_constructors_self (suc fuel) s params h = ground (
  arith,
  text_eq_refl (constructor_of (bare_type s)),
  same_args_self (λ x y. same_type_constructors fuel x y params) (bare_type s)
      (λ d lt. same_type_constructors_self fuel d params (omega (arith, length-bare_type s))),
)
