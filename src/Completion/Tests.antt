-- ===== src/Completion/Tests.antt =====
-- Runs of the scoring and of the collection of bare names.
use kmp_lsp.Base.{ℕ, ◌≡◌, refl, true, false, some, none, List, [], ◌∷◌, arith, length}
use kmp_lsp.Text.{Text, codes, ascii_table, to_ascii_lowercase}
use kmp_lsp.Completion.Matching.{
  camel_acronym_match, match_score, word_starts, is_word_start, matches_starts, seek,
}
use kmp_lsp.Completion.Bare.{CompletionItem, new_completer}
use kmp_lsp.Completion.Cross.{CompletionIndex, CurrentFileCompletionContext, collect_cross_package}
use kmp_lsp.Completion.Answer.{dedup_completion_labels, dedup_from}
use kmp_lsp.Completion.Collected.{IsWithin, adds, calls, collect_cross_package-IsWithin}

scores :
    (match_score ascii_table (codes "MutableStateFlow") (codes "mut") ≡ some 0)
    × (match_score ascii_table (codes "MutableStateFlow") (codes "mSF") ≡ some 1)
    × (match_score ascii_table (codes "MutableStateFlow") (codes "flow") ≡ some 2)
    × (match_score ascii_table (codes "MutableStateFlow") (codes "fsm") ≡ none)
unfolding match_score camel_acronym_match word_starts is_word_start matches_starts seek
    to_ascii_lowercase
scores = (refl, refl, refl, refl)

abbrev item : Text → Text → CompletionItem
item label sort_text = record {
  label = label;
  kind = 7;
  filter_text = none;
  sort_text = some sort_text;
  insert_text = none;
  insert_text_format = none;
  command = none;
  detail = none;
  label_description = none;
  additional_text_edits = none;
  item_data = none;
}

abbrev items : List CompletionItem
items =
    item (codes "map") (codes "2map")
    ∷ item (codes "also") (codes "1also")
    ∷ item (codes "map") (codes "0map")
    ∷ []

one_of_each : length (dedup_completion_labels items) ≡ 2
unfolding dedup_completion_labels dedup_from
one_of_each = refl

-- An index with one name of another package; each promotion that is asked for takes one.
abbrev index : CompletionIndex
index = record {
  Index = ℕ;
  has_definitions = λ i n. false;
  ensure_jar_definitions_for = λ i n left. (i, left);
  materialized = λ i. i;
  fqns_for_name = λ i n. codes "a.b.Mapping" ∷ [];
  jar_symbol_detail = λ i n q. none;
  supports_label_details = true;
}

abbrev context : CurrentFileCompletionContext
context = record { imports = []; package_name = codes "a"; lines = []; needs_semicolons = false }

collect_cross_package-IsWithin_example :
    IsWithin ascii_table
      (codes "Map")
      index
      (λ i n left. omega arith)
      (collect_cross_package index ascii_table
        (codes "Map")
        context
        (codes "Mapping" ∷ [])
        (record {
          index = 0;
          completer =
              calls ascii_table
                (codes "Map")
                (adds (codes "MapOf") 7 0 [] none ∷ [])
                (new_completer ascii_table (codes "Map") true false);
          jar_promotion_attempts = 0;
          jar_materializations = 0;
        }))
collect_cross_package-IsWithin_example =
    collect_cross_package-IsWithin ascii_table (codes "Map") index (λ i n left. omega arith) context
      (codes "Mapping" ∷ []) 0 (adds (codes "MapOf") 7 0 [] none ∷ []) true false
