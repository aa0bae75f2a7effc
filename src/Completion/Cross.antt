-- ===== src/Completion/Cross.antt =====
-- The names of other packages in resolver/complete.rs, with the promotion of their JARs.
use kmp_lsp.Base.{
  ℕ, ◌+◌, ◌-◌, ◌%◌, ◌^◌, Bool, not, ◌&&◌, ◌||◌, Option, none, some, List, [], ◌∷◌, ◌++◌,
  if◌then◌else◌, is_empty, any, ltb, length,
}
use kmp_lsp.Text.{Text, Unicode, codes, text_eq, contains, rsplit_once}
use kmp_lsp.TypeText.Names.{starts_with_lowercase}
use kmp_lsp.Resolver.Names.{ImportEntry}
use kmp_lsp.Resolver.ImportEdit.{already_imported, make_import_edit}
use kmp_lsp.Completion.Matching.{is_screaming_snake}
use kmp_lsp.Completion.Bare.{BareCompleter, CompletionItem, admit, digits, score_within}

pub record CurrentFileCompletionContext : Type 0 where
  pub imports : List ImportEntry
  pub package_name : Text
  pub lines : List Text
  pub needs_semicolons : Bool

abbrev pub qualifier_of : Text → Text
qualifier_of fqn = elim (rsplit_once b'.' fqn) [ none ↦ [] | some (qualifier, name) ↦ qualifier ]

unfoldable pub needs_import : CurrentFileCompletionContext → Text → Bool
needs_import ctx fqn =
    not (already_imported fqn ctx.imports)
    && not (any (λ i. i.is_star && text_eq i.full_path (qualifier_of fqn)) ctx.imports)
    && not (text_eq (qualifier_of fqn) ctx.package_name)

-- What the collection asks of the index: the promotion of a name's JARs, which returns the index
-- with what is left of the budget, and look-ups.
pub record CompletionIndex : Type 1 where
  pub Index : Type 0
  pub has_definitions : Index → Text → Bool
  pub ensure_jar_definitions_for : Index → Text → ℕ → Index × ℕ
  pub materialized : Index → ℕ
  pub fqns_for_name : Index → Text → List Text
  pub jar_symbol_detail : Index → Text → Text → Option (Option Text × Option Text)
  pub supports_label_details : Bool

abbrev pub max_sync_jar_promotions : ℕ
max_sync_jar_promotions = 5

abbrev pub max_cache_backed_materializations : ℕ
max_cache_backed_materializations = 32

-- The difference of two `usize`, which wraps.
abbrev wrapping_sub : ℕ → ℕ → ℕ
wrapping_sub a b = (a + (2 ^ 64 - b)) % 2 ^ 64

module _ (x : CompletionIndex) where
  pub record BareCompletionWalk : Type 0 where
    pub index : x.Index
    pub completer : BareCompleter
    pub jar_promotion_attempts : ℕ
    pub jar_materializations : ℕ

  abbrev pub detail_of :
      Bool → Text → Text → Option (Option Text × Option Text) → Option Text × Option Text
  detail_of needs qualifier fqn none =
      (if needs then some qualifier else none, some (codes "f:" ++ fqn))
  detail_of needs qualifier fqn (some (none, data_)) = (none, data_)
  detail_of needs qualifier fqn (some (some signature, data_)) =
      if not x.supports_label_details && not (is_empty qualifier)
      then (some (codes "package " ++ qualifier ++ 10 ∷ signature), data_)
      else (some signature, data_)

  abbrev pub cross_item :
      Unicode → x.Index → CurrentFileCompletionContext → Text → Text → ℕ → CompletionItem
  cross_item u index ctx bare_name fqn score =
      let d =
        detail_of (needs_import ctx fqn) (qualifier_of fqn) fqn
          (x.jar_symbol_detail index bare_name (qualifier_of fqn)) in
      record {
        label = bare_name;
        kind = 7;
        filter_text = some bare_name;
        sort_text = some (codes "2" ++ digits score ++ codes ":" ++ u.to_lowercase bare_name);
        insert_text = none;
        insert_text_format = none;
        command = none;
        detail = d.0;
        label_description =
            if x.supports_label_details && not (is_empty (qualifier_of fqn))
            then some (qualifier_of fqn)
            else none;
        additional_text_edits =
            if needs_import ctx fqn
            then some (make_import_edit fqn ctx.lines ctx.needs_semicolons)
            else none;
        item_data = d.1;
      }

  unfoldable pub add_cross_package_symbol :
      Unicode
      → CurrentFileCompletionContext
      → Text
      → Text
      → ℕ
      → BareCompletionWalk
      → BareCompletionWalk
  add_cross_package_symbol u ctx bare_name fqn score w = record w {
    completer =
        admit (bare_name ++ codes ":" ++ fqn) (cross_item u w.index ctx bare_name fqn score)
          w.completer;
  }

  unfoldable pub add_cross_package_symbols :
      Unicode
      → CurrentFileCompletionContext
      → Text
      → ℕ
      → List Text
      → BareCompletionWalk
      → BareCompletionWalk
  add_cross_package_symbols u ctx bare_name score [] w = w
  add_cross_package_symbols u ctx bare_name score (fqn ∷ fqns) w =
      add_cross_package_symbols u ctx bare_name score fqns
        (add_cross_package_symbol u ctx bare_name fqn score w)

  unfoldable pub add_cross_package_name_without_imports :
      Unicode → Text → ℕ → BareCompletionWalk → BareCompletionWalk
  add_cross_package_name_without_imports u bare_name score w = record w {
    completer =
        admit bare_name
          (record {
            label = bare_name;
            kind = 7;
            filter_text = some bare_name;
            sort_text = some (codes "2" ++ digits score ++ codes ":" ++ u.to_lowercase bare_name);
            insert_text = none;
            insert_text_format = none;
            command = none;
            detail = none;
            label_description = none;
            additional_text_edits = none;
            item_data = none;
          })
          w.completer;
  }

  unfoldable pub cross_package_score : Unicode → Text → Text → Option ℕ
  cross_package_score u bare_name prefix =
      score_within u bare_name prefix (if ltb (length prefix) 2 then 0 else 1)

  -- The promotion, within what is left of the cap.
  unfoldable pub promote : Text → BareCompletionWalk → BareCompletionWalk
  promote bare_name w =
      let cap_remaining = max_sync_jar_promotions - w.jar_promotion_attempts in
      let promoted = x.ensure_jar_definitions_for w.index bare_name cap_remaining in
      if not (x.has_definitions w.index bare_name)
        && ltb w.jar_materializations max_cache_backed_materializations
      then record w {
        index = promoted.0;
        jar_promotion_attempts = w.jar_promotion_attempts + wrapping_sub cap_remaining promoted.1;
        jar_materializations =
            w.jar_materializations + (x.materialized promoted.0 - x.materialized w.index);
      }
      else w

  abbrev pub add_names :
      Unicode
      → CurrentFileCompletionContext
      → Text
      → ℕ
      → List Text
      → BareCompletionWalk
      → BareCompletionWalk
  add_names u ctx bare_name score [] w = add_cross_package_name_without_imports u bare_name score w
  add_names u ctx bare_name score (fqn ∷ fqns) w =
      add_cross_package_symbols u ctx bare_name score (fqn ∷ fqns) w

  abbrev pub add_cross_scored :
      Unicode
      → CurrentFileCompletionContext
      → Text
      → Option ℕ
      → BareCompletionWalk
      → BareCompletionWalk
  add_cross_scored u ctx bare_name none w = w
  add_cross_scored u ctx bare_name (some score) w =
      let promoted = promote bare_name w in
      if contains w.completer.seen bare_name
      then w
      else add_names u ctx bare_name score (x.fqns_for_name promoted.index bare_name) promoted

  unfoldable pub add_cross_package_name :
      Unicode → Text → CurrentFileCompletionContext → Text → BareCompletionWalk → BareCompletionWalk
  add_cross_package_name u prefix ctx bare_name w =
      if starts_with_lowercase u bare_name
        || w.completer.camel_mode && is_screaming_snake u bare_name
      then w
      else add_cross_scored u ctx bare_name (cross_package_score u bare_name prefix) w

  unfoldable pub add_cross_package_names :
      Unicode
      → Text
      → CurrentFileCompletionContext
      → List Text
      → BareCompletionWalk
      → BareCompletionWalk
  add_cross_package_names u prefix ctx [] w = w
  add_cross_package_names u prefix ctx (name ∷ names) w =
      add_cross_package_names u prefix ctx names (add_cross_package_name u prefix ctx name w)

  -- The cache of bare names is the argument.
  unfoldable pub collect_cross_package :
      Unicode
      → Text
      → CurrentFileCompletionContext
      → List Text
      → BareCompletionWalk
      → BareCompletionWalk
  collect_cross_package u prefix ctx cache w =
      if not w.completer.uppercase_mode && not w.completer.annotation_only
      then w
      else add_cross_package_names u prefix ctx cache w
