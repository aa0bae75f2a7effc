-- ===== src/Subst/Params.antt =====
-- `match_type_args_recursive` of indexer/infer/type_subst.rs: its keys and its recursion.
use kmp_lsp.Base.{
  ℕ, zero, suc, ◌≤◌, ◌<◌, ◌≡◌, ◌∙◌, refl, ap, true, Option, none, some, List, [], ◌∷◌, arith, All,
  length,
}
use kmp_lsp.Text.{Text, contains, trim}
use kmp_lsp.TypeText.Names.{strip_nullable}
use kmp_lsp.TypeText.Args.{split_top_level_commas, type_args_inner}
use kmp_lsp.TypeText.Args.Lengths.{
  split_top_level_commas-lengths, type_args_inner-length, length-trim, length-strip_nullable,
  All-shorter,
}
use kmp_lsp.Subst.{Subst, each_pair, into_args, match_type_args_recursive, build_ext_fn_type_subst}

length-bare : (s : Text) → length (strip_nullable (trim s)) ≤ length s
length-bare s = omega (arith, length-strip_nullable (trim s), length-trim s)

abbrev pub BindsOnly : List Text → Subst → Type 0
BindsOnly params m = All (λ pair. contains params pair.0 ≡ true) m

each_pair-BindsOnly :
    (params : List Text) (f : Text → Text → Subst → Subst)
    → ((d c : Text) (m : Subst) → BindsOnly params m → BindsOnly params (f d c m))
    → (ds cs : List Text) (m : Subst) → BindsOnly params m
    → BindsOnly params (each_pair f ds cs m)
each_pair-BindsOnly params f h [] cs m b = b
each_pair-BindsOnly params f h (d ∷ ds) [] m b = b
each_pair-BindsOnly params f h (d ∷ ds) (c ∷ cs) m b =
    each_pair-BindsOnly params f h ds cs (f d c m) (h d c m b)

into_args-BindsOnly :
    (params : List Text) (f : Text → Text → Subst → Subst)
    → ((d c : Text) (m : Subst) → BindsOnly params m → BindsOnly params (f d c m))
    → (d c : Option Text) (m : Subst) → BindsOnly params m
    → BindsOnly params (into_args f d c m)
into_args-BindsOnly params f h none c m b = b
into_args-BindsOnly params f h (some d) none m b = b
into_args-BindsOnly params f h (some d) (some c) m b =
    each_pair-BindsOnly params f h (split_top_level_commas d) (split_top_level_commas c) m b

match-BindsOnly :
    (fuel : ℕ) (d c : Text) (params : List Text) (m : Subst)
    → BindsOnly params m
    → BindsOnly params (match_type_args_recursive fuel d c params m)
unfolding match_type_args_recursive
match-BindsOnly zero d c params m b = b
match-BindsOnly (suc fuel) d c params m b = ground (
  arith,
  into_args-BindsOnly params (λ x y n. match_type_args_recursive fuel x y params n)
      (λ x y n k. match-BindsOnly fuel x y params n k) (type_args_inner (strip_nullable (trim d)))
      (type_args_inner (strip_nullable (trim c))) m b,
)

-- Matching a declared receiver against a concrete one binds type parameters of the function only.
build_ext_fn_type_subst-BindsOnly :
    (declared concrete : Text) (params : List Text)
    → BindsOnly params (build_ext_fn_type_subst declared concrete params)
unfolding build_ext_fn_type_subst
build_ext_fn_type_subst-BindsOnly declared concrete params =
    ground (arith, match-BindsOnly (suc (length declared)) declared concrete params [] tt)

each_pair-eq :
    (f g : Text → Text → Subst → Subst) (ds cs : List Text) (m : Subst)
    → All (λ d. (c : Text) (n : Subst) → f d c n ≡ g d c n) ds
    → each_pair f ds cs m ≡ each_pair g ds cs m
each_pair-eq f g [] cs m h = refl
each_pair-eq f g (d ∷ ds) [] m h = refl
each_pair-eq f g (d ∷ ds) (c ∷ cs) m (h, hs) =
    each_pair-eq f g ds cs (f d c m) hs ∙ ap (each_pair g ds cs) (h c m)

into_args-eq :
    (f g : Text → Text → Subst → Subst) (s : Text) (c : Option Text) (m : Subst)
    → ((d : Text) → length d < length s → (x : Text) (n : Subst) → f d x n ≡ g d x n)
    → into_args f (type_args_inner s) c m ≡ into_args g (type_args_inner s) c m
into_args-eq f g s c m h = go (type_args_inner s) c (λ inner e. type_args_inner-length s inner e)
  where
    go :
        (o c : Option Text)
        → ((inner : Text) → o ≡ some inner → length inner < length s)
        → into_args f o c m ≡ into_args g o c m
    go none c lt = refl
    go (some inner) none lt = refl
    go (some inner) (some y) lt =
        each_pair-eq f g (split_top_level_commas inner) (split_top_level_commas y) m (
          All-shorter _ (length inner) (λ d k. h d (omega (arith, lt inner refl)))
            (split_top_level_commas inner) (split_top_level_commas-lengths inner))

-- The recursion into the type arguments ends: every fuel above the length of the declared type gives
-- one answer, that of the code, which takes one more than the length of the receiver's text.
match_type_args-fuel :
    (f g : ℕ) (declared concrete : Text) (params : List Text) (m : Subst)
    → length declared < f
    → length declared < g
    → match_type_args_recursive f declared concrete params m
      ≡ match_type_args_recursive g declared concrete params m
unfolding match_type_args_recursive
match_type_args-fuel zero g d c params m hf hg = absurd (omega arith)
match_type_args-fuel (suc f) zero d c params m hf hg = absurd (omega arith)
match_type_args-fuel (suc f) (suc g) d c params m hf hg = rw (
    into_args-eq (λ x y n. match_type_args_recursive f x y params n)
      (λ x y n. match_type_args_recursive g x y params n) (strip_nullable (trim d))
      (type_args_inner (strip_nullable (trim c))) m
      (λ x lt y n.
        match_type_args-fuel f g x y params n (omega (arith, length-bare d))
          (omega (arith, length-bare d))))
