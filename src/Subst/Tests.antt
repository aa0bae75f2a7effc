-- ===== src/Subst/Tests.antt =====
-- Runs of the substitutions of type parameters.
use kmp_lsp.Base.{◌≡◌, refl, [], ◌∷◌, ◌++◌, arith, zip, All}
use kmp_lsp.Text.{codes, join, trim, trim_start, trim_end}
use kmp_lsp.TypeText.Args.Split.{comma}
use kmp_lsp.Subst.{as_written, collect, readable_type_argument, build_type_arg_subst_for_params}
use kmp_lsp.Subst.Bindings.{IsPlain, build_subst-instantiation}

IsPlain-args : All IsPlain (codes "String" ∷ codes "List<A>" ∷ [])
unfolding readable_type_argument trim trim_start trim_end
IsPlain-args = ((refl, refl, refl), ((refl, refl, refl), tt))

build_subst-instantiation_example :
    build_type_arg_subst_for_params
      (codes "K" ∷ codes "V" ∷ [])
      (codes "Map"
        ++ b'<' ∷ (join comma (codes "String" ∷ codes "List<A>" ∷ []) ++ b'>' ∷ codes "?"))
      as_written
    ≡ collect (zip (codes "K" ∷ codes "V" ∷ []) (codes "String" ∷ codes "List<A>" ∷ []))
build_subst-instantiation_example =
    build_subst-instantiation (codes "K") (codes "V" ∷ []) (codes "Map") (codes "?")
      (codes "String") (codes "List<A>" ∷ []) (ground arith) (ground arith) IsPlain-args
