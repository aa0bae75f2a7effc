-- ===== src/Subst/Bindings.antt =====
-- The bindings that an instantiation gives to the type parameters of its class.
use kmp_lsp.Base.{
  ◌≡◌, ◌≢◌, ◌∙◌, refl, ap, false, some, List, [], ◌∷◌, ◌++◌, map, arith, is_empty, All, zip,
  filter_map,
}
use kmp_lsp.Text.{Text, join, trim}
use kmp_lsp.TypeText.Args.Split.{comma, IsArg, split_top_level_commas-join, type_args_inner-append}
use kmp_lsp.Subst.{
  as_written, readable_type_argument, readable_args, bound_pair, bind_inner, collect,
  build_type_arg_subst_for_params,
}

-- An argument that reads as it is written: its brackets close, it is not blank, and it is no star
-- and no projection.
abbrev pub IsPlain : Text → Type 0
IsPlain a = IsArg a × (is_empty (trim a) ≡ false) × (readable_type_argument a as_written ≡ some a)

plain-IsArg : (xs : List Text) → All IsPlain xs → All IsArg xs
plain-IsArg [] h = tt
plain-IsArg (x ∷ xs) ((a, b, c), h) = (a, plain-IsArg xs h)

readable_args-map : (xs : List Text) → All IsPlain xs → readable_args as_written xs ≡ map some xs
unfolding readable_args
readable_args-map [] h = refl
readable_args-map (x ∷ xs) ((a, b, c), h) = ground (arith, readable_args-map xs h)

filter_map-zip : (ps xs : List Text) → filter_map bound_pair (zip ps (map some xs)) ≡ zip ps xs
filter_map-zip [] xs = refl
filter_map-zip (p ∷ ps) [] = refl
filter_map-zip (p ∷ ps) (x ∷ xs) = ap (λ z. (p, x) ∷ z) (filter_map-zip ps xs)

-- Reading the bindings off a written instantiation gives back what was written: each type
-- parameter is bound to the argument in its place, where the class name has no `<`, nothing behind
-- the arguments has a `>`, and each argument reads as it is written and has its brackets closed
-- and its commas within them.
pub build_subst-instantiation :
    (p : Text) (ps : List Text) (base rest a : Text) (xs : List Text)
    → All (λ c. b'<' ≢ c) base
    → All (λ c. b'>' ≢ c) rest
    → All IsPlain (a ∷ xs)
    → build_type_arg_subst_for_params
        (p ∷ ps)
        (base ++ b'<' ∷ (join comma (a ∷ xs) ++ b'>' ∷ rest))
        as_written
      ≡ collect (zip (p ∷ ps) (a ∷ xs))
unfolding build_type_arg_subst_for_params bind_inner
build_subst-instantiation p ps base rest a xs hb hr h =
    ap (bind_inner (p ∷ ps) as_written)
      (type_args_inner-append base (join comma (a ∷ xs)) rest hb hr)
    ∙ ap (λ z. collect (filter_map bound_pair (zip (p ∷ ps) z)))
        (ap (readable_args as_written) (split_top_level_commas-join a xs (plain-IsArg (a ∷ xs) h))
          ∙ readable_args-map (a ∷ xs) h)
    ∙ ap collect (filter_map-zip (p ∷ ps) (a ∷ xs))
