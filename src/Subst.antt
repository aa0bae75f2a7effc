-- ===== src/Subst.antt =====
-- Generic substitution: indexer/infer/type_subst.rs, and `apply_type_subst` of indexer/lookup.rs.
-- A `HashMap` is an association list, the newest binding first. The look-ups of the trait
-- `InferDeps`, which read the index and the disk, are a record of functions.
mod Tests
pub mod Chain
pub mod Identity
pub mod Bindings
pub mod Params
pub mod Shape
use kmp_lsp.Base.{
  ℕ, zero, suc, ◌+◌, ◌-◌, ◌≡◌, refl, Bool, true, false, not, ◌&&◌, ◌||◌, Option, none, some, List,
  [], ◌∷◌, ◌++◌, map, String, arith, ltb, leb, ◌==◌, if◌then◌else◌, ◌>>=◌, or_else, unwrap_or,
  is_some, is_empty, length, take, drop, head?, zip, filter_map, keep,
}
use kmp_lsp.Text.{
  Text, Unicode, codes, text_eq, strip_prefix, starts_with, contains, trim, trim_start, trim_end,
  take_while, drop_end_while, ends_with_char, split,
}
use kmp_lsp.TypeText.Names.{
  is_id_char, ident_prefix, dotted_ident_prefix, last_segment, is_nullable, strip_nullable,
  strip_variance, is_generic_param, capitalize_first_char, last_ident_in,
}
use kmp_lsp.TypeText.Args.{
  first_type_arg, split_top_level_commas, type_args_inner, strip_trailing_lambda,
  strip_trailing_args, find_last_dot_at_depth_zero,
}

abbrev pub Subst : Type 0
Subst = List (Text × Text)

unfoldable pub get : Subst → Text → Option Text
get [] k = none
get ((j, v) ∷ m) k = if text_eq j k then some v else get m k

abbrev pub insert : Text → Text → Subst → Subst
insert k v m = (k, v) ∷ m

-- `collect()` into a map: a later pair hides an earlier one of the same key.
abbrev pub collect_onto : Subst → List (Text × Text) → Subst
collect_onto m [] = m
collect_onto m ((k, v) ∷ ps) = collect_onto (insert k v m) ps

unfoldable pub collect : List (Text × Text) → Subst
collect ps = collect_onto [] ps

pub data ArgumentNullability : Type 0 where
  stripped as_written : ArgumentNullability

unfoldable pub readable_type_argument : Text → ArgumentNullability → Option Text
unfolding trim strip_variance strip_nullable
readable_type_argument raw_argument nullability =
    let trimmed = trim raw_argument in
    let argument = strip_variance trimmed in
    if text_eq trimmed (codes "*") || starts_with (codes "in ") trimmed
    then none
    else elim nullability [ stripped ↦ some (strip_nullable argument) | as_written ↦ some argument ]

unfoldable pub readable_args : ArgumentNullability → List Text → List (Option Text)
unfolding readable_type_argument trim
readable_args nullability raw_args =
    map (λ raw_arg. readable_type_argument raw_arg nullability)
      (keep (λ raw_arg. not (is_empty (trim raw_arg))) raw_args)

abbrev pub bound_pair : Text × Option Text → Option (Text × Text)
bound_pair (param, none) = none
bound_pair (param, some argument) = some (param, argument)

unfoldable pub bind_inner : List Text → ArgumentNullability → Option Text → Subst
bind_inner params nullability none = []
bind_inner params nullability (some inner) =
    collect (
      filter_map bound_pair (zip params (readable_args nullability (split_top_level_commas inner))))

unfoldable pub build_type_arg_subst_for_params : List Text → Text → ArgumentNullability → Subst
build_type_arg_subst_for_params [] concrete_type nullability = []
build_type_arg_subst_for_params (p ∷ ps) concrete_type nullability =
    bind_inner (p ∷ ps) nullability (type_args_inner concrete_type)

unfoldable pub build_fn_subst : List Text → List Text → Subst
unfolding collect
build_fn_subst params args =
    collect (keep (λ pair. not (text_eq pair.1 (codes "_"))) (zip params args))

unfoldable pub is_declared_type_param : Text → List Text → Bool
is_declared_type_param name fun_type_params = contains fun_type_params name

-- The arguments of two types, pair by pair, each with the round `f`.
abbrev pub each_pair : (Text → Text → Subst → Subst) → List Text → List Text → Subst → Subst
each_pair f [] cs m = m
each_pair f (d ∷ ds) [] m = m
each_pair f (d ∷ ds) (c ∷ cs) m = each_pair f ds cs (f d c m)

-- The last case of a round: into the type arguments.
abbrev pub into_args : (Text → Text → Subst → Subst) → Option Text → Option Text → Subst → Subst
into_args f none c m = m
into_args f (some d_inner) none m = m
into_args f (some d_inner) (some c_inner) m =
    each_pair f (split_top_level_commas d_inner) (split_top_level_commas c_inner) m

-- With fuel for the nesting of the declared type, which is at most its length.
unfoldable pub match_type_args_recursive : ℕ → Text → Text → List Text → Subst → Subst
match_type_args_recursive zero declared concrete params m = m
match_type_args_recursive (suc fuel) declared concrete params m =
    let decl_base = strip_nullable (trim declared) in
    let conc_base = strip_nullable (trim concrete) in
    let bound = if is_nullable (trim declared) then conc_base else trim concrete in
    let deeper =
      into_args (λ d c n. match_type_args_recursive fuel d c params n) (type_args_inner decl_base)
        (type_args_inner conc_base) m in
    if is_empty decl_base || is_empty conc_base
    then m
    else if contains params decl_base
    then insert decl_base bound m
    else deeper

unfoldable pub build_ext_fn_type_subst : Text → Text → List Text → Subst
build_ext_fn_type_subst declared_receiver concrete_receiver fun_type_params =
    let declared = trim declared_receiver in
    let whole_receiver_param = strip_nullable declared in
    let concrete = trim concrete_receiver in
    let bound = if is_nullable declared then strip_nullable concrete else concrete in
    if contains fun_type_params whole_receiver_param
    then (if is_empty bound then [] else insert whole_receiver_param bound [])
    else match_type_args_recursive (suc (length declared_receiver)) declared_receiver
        concrete_receiver fun_type_params []

unfoldable pub constructor_of : Text → Text
unfolding trim last_segment split
constructor_of type_text =
    last_segment (trim (unwrap_or (head? (split (λ c. c == b'<') type_text)) []))

abbrev pub all_pairs : (Text → Text → Bool) → List Text → List Text → Bool
all_pairs f [] ws = true
all_pairs f (d ∷ ds) [] = true
all_pairs f (d ∷ ds) (w ∷ ws) = f d w && all_pairs f ds ws

abbrev pub same_args : (Text → Text → Bool) → Option Text → Option Text → Bool
same_args f none w = true
same_args f (some d) none = false
same_args f (some d) (some w) =
    let ds = split_top_level_commas d in
    let ws = split_top_level_commas w in length ds == length ws && all_pairs f ds ws

abbrev pub bare_type : Text → Text
bare_type s = strip_nullable (strip_variance (trim s))

-- Fuel for the nesting, as above; a run out of fuel answers "no".
unfoldable pub same_type_constructors : ℕ → Text → Text → List Text → Bool
same_type_constructors zero declared written params = false
same_type_constructors (suc fuel) declared written params =
    let d = bare_type declared in
    let w = bare_type written in
    let deeper =
      same_args (λ x y. same_type_constructors fuel x y params) (type_args_inner d)
        (type_args_inner w) in
    if contains params d
    then true
    else if not (text_eq (constructor_of d) (constructor_of w))
    then false
    else deeper

unfoldable pub first_type_arg_raw : Unicode → Text → Option Text
unfolding type_args_inner first_type_arg readable_type_argument ident_prefix is_generic_param
first_type_arg_raw u type_name = do
  inner ← type_args_inner type_name
  arg ← readable_type_argument (first_type_arg inner) stripped
  let base = ident_prefix u arg
  if is_empty base || is_generic_param u base then none else some arg

-- `chars.get(i) == Some('.')` and an identifier's first character behind it.
abbrev pub before_member : Unicode → Text → Bool
before_member u [] = false
before_member u (c ∷ []) = false
before_member u (c ∷ next ∷ s) = c == b'.' && (u.is_alphabetic next || next == b'_')

abbrev pub after_dot : Option ℕ → Bool
after_dot none = false
after_dot (some c) = c == b'.'

-- What an identifier becomes, and whether the `?` behind it is dropped.
unfoldable pub substituted : Unicode → Subst → Option ℕ → Text → Text → Text × Bool
unfolding get
substituted u subst previous ident rest =
    if after_dot previous || before_member u rest then (ident, false) else elim (get subst ident) [
      | none ↦ (ident, false)
      | some replacement ↦
          (replacement, ends_with_char b'?' replacement && starts_with (codes "?") rest)
    ]

abbrev pub bit : Bool → ℕ
bit true = 1
bit false = 0

-- The loop from position i on. `skip` counts the characters that an identifier has consumed,
-- `previous` is the character before i.
unfoldable pub apply_from : Unicode → Subst → ℕ → Option ℕ → Text → Text
apply_from u subst skip previous [] = []
apply_from u subst (suc skip) previous (c ∷ s) = apply_from u subst skip (some c) s
apply_from u subst zero previous (c ∷ s) =
    let ident = take_while (is_id_char u) (c ∷ s) in
    let (text, drops) = substituted u subst previous ident (drop (length ident) (c ∷ s)) in
    let consumed = apply_from u subst (length ident - 1 + bit drops) (some c) s in
    let kept = c ∷ apply_from u subst zero (some c) s in
    if u.is_alphabetic c || c == b'_' then text ++ consumed else kept

unfoldable pub apply_type_subst : Unicode → Text → Subst → Text
apply_type_subst u sig [] = sig
apply_type_subst u sig (b ∷ m) = apply_from u (b ∷ m) zero none sig

unfoldable pub apply_simple_subst : Unicode → Text → Subst → Text
unfolding apply_type_subst
apply_simple_subst u type_str subst = apply_type_subst u type_str subst
