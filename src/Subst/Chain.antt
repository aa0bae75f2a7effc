-- ===== src/Subst/Chain.antt =====
-- The receiver of a call chain and what its type binds: indexer/infer/type_subst.rs, over the look-ups
-- of indexer/infer/deps.rs.
use kmp_lsp.Base.{
  ◌+◌, not, ◌||◌, Option, none, some, List, [], ◌∷◌, ◌==◌, if◌then◌else◌, ◌>>=◌, or_else, is_empty,
  take, drop,
}
use kmp_lsp.Text.{Text, Unicode, text_eq, trim, trim_end, drop_end_while}
use kmp_lsp.TypeText.Names.{
  ident_prefix, dotted_ident_prefix, last_segment, capitalize_first_char, last_ident_in,
}
use kmp_lsp.TypeText.Args.{strip_trailing_lambda, strip_trailing_args, find_last_dot_at_depth_zero}
use kmp_lsp.Subst.{
  Subst, get, ArgumentNullability, stripped, build_type_arg_subst_for_params,
  is_declared_type_param, build_ext_fn_type_subst, apply_type_subst,
}

pub record CallableInfo : Type 0 where
  pub type_params : List Text
  pub extension_receiver_type : Text

-- The look-ups of `InferDeps` that this file uses, at the calling file.
pub record InferDeps : Type 0 where
  pub find_class_type_params : Text → List Text
  pub find_fun_callable_info : Text → Option CallableInfo
  pub find_var_type : Text → Option Text
  pub find_method_return_type_for_type : Text → Text → Option Text

module _ (u : Unicode) (deps : InferDeps) where
  unfoldable pub build_type_arg_subst : Text → Text → ArgumentNullability → Subst
  unfolding build_type_arg_subst_for_params
  build_type_arg_subst class_name concrete_type nullability =
      build_type_arg_subst_for_params (deps.find_class_type_params class_name) concrete_type
        nullability

  base_type_name : Text → Option Text → Text
  unfolding last_segment dotted_ident_prefix capitalize_first_char
  base_type_name base_var (some t) = last_segment (dotted_ident_prefix u t)
  base_type_name base_var none = capitalize_first_char u base_var

  base_subst : Text → Option Text → Subst
  unfolding build_type_arg_subst
  base_subst base_name (some t) = build_type_arg_subst base_name t stripped
  base_subst base_name none = []

  -- The receiver as `base.method`, split at the dot.
  method_return : Text → Text → Option Text
  unfolding last_ident_in base_type_name base_subst apply_type_subst
  method_return base_expr method =
      let base_var = last_ident_in u base_expr in
      let base_type_resolved = deps.find_var_type base_var in
      let base_name = base_type_name base_var base_type_resolved in
      if is_empty base_expr || is_empty method || is_empty base_name then none else do
        return_type ← deps.find_method_return_type_for_type base_name method
        some (apply_type_subst u return_type (base_subst base_name base_type_resolved))

  resolve_stripped : Text → Option Text
  unfolding find_last_dot_at_depth_zero trim ident_prefix last_ident_in method_return
  resolve_stripped stripped_expr =
      let var = last_ident_in u stripped_expr in
      or_else
        (do
          dot ← find_last_dot_at_depth_zero stripped_expr
          method_return (trim (take dot stripped_expr))
              (ident_prefix u (trim (drop (dot + 1) stripped_expr))))
        (if is_empty var then none else deps.find_var_type var)

  strip_suffix : Text → Text → Option Text
  strip_suffix suffix [] = if is_empty suffix then some [] else none
  strip_suffix suffix (c ∷ s) =
      let rest = strip_suffix suffix s in
      if text_eq suffix (c ∷ s) then some [] else elim rest [ none ↦ none | some r ↦ some (c ∷ r) ]

  unfoldable pub resolve_chain_receiver_type : Text → Text → Option Text
  unfolding trim_end strip_suffix strip_trailing_args strip_trailing_lambda resolve_stripped
  resolve_chain_receiver_type before_open fn_name = do
    before_fn ← strip_suffix fn_name (trim_end before_open)
    let receiver_expr = trim_end (drop_end_while (λ c. c == b'.') before_fn)
    let stripped_expr = strip_trailing_args (strip_trailing_lambda receiver_expr)
    if is_empty receiver_expr || is_empty stripped_expr
        then none
        else resolve_stripped stripped_expr

  substitute_from : Text → Text → Text → CallableInfo → Option Text
  unfolding is_declared_type_param resolve_chain_receiver_type build_ext_fn_type_subst get
  substitute_from raw_input fn_name before_open info =
      if not (is_declared_type_param raw_input info.type_params)
        || is_empty info.extension_receiver_type
      then none
      else do
        concrete_receiver ← resolve_chain_receiver_type before_open fn_name
        get
            (build_ext_fn_type_subst info.extension_receiver_type concrete_receiver
              info.type_params)
            raw_input

  unfoldable pub try_substitute_ext_fn_type_param : Text → Text → Text → Option Text
  unfolding substitute_from
  try_substitute_ext_fn_type_param raw_input fn_name before_open = do
    info ← deps.find_fun_callable_info fn_name
    substitute_from raw_input fn_name before_open info
