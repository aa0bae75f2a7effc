-- ===== src/Subst/Identity.antt =====
-- `apply_type_subst` of indexer/lookup.rs under bindings of names to themselves.
use kmp_lsp.Base.{◌≡◌, some}
use kmp_lsp.Text.{Text}
use kmp_lsp.Subst.{Subst, get}

-- Every binding of the map binds a name to itself.
abbrev pub BindsItself : Subst → Type 0
BindsItself m = (k v : Text) → get m k ≡ some v → v ≡ k
