-- ===== src/Index/Tests.antt =====
-- Runs of the writers of the index: two files of one package, one of them indexed twice.
use kmp_lsp.Base.{
  ◌≡◌, refl, true, false, Option, some, none, List, [], ◌∷◌, ◌++◌, map, keep, if◌then◌else◌,
}
use kmp_lsp.Text.{Text, codes, text_eq, contains, split, rsplit_once}
use kmp_lsp.Resolver.TieBreak.{Url}
use kmp_lsp.Index.FileTable.{FileTable, insert_uri, url as file_url}
use kmp_lsp.Index.Symbols.{
  Range, SymbolEntry, public_, main, FileData, FileIndexResult, build_qualified_keys,
  file_stem_from_uri,
}
use kmp_lsp.Index.Store.{
  Index, located, last_range, apply_contributions, apply_file_result, reset_index_state,
  remove_stale_for_uri,
}
use kmp_lsp.Index.Declared.{
  IsDeclared, Write, file_result, reset, write, writes, elsewhere, writes-IsDeclared,
}
use kmp_lsp.Index.Others.{apply_file_result-others, apply_file_result-loses}
use kmp_lsp.Index.Bulk.{
  NoRepeat, Unknown, apply_contributions_fresh, apply_workspace_result,
  apply_contributions_fresh-reference, apply_workspace_result-IsDeclared,
}

abbrev url : Text → Url
url path = record {
  as_str = codes "file://" ++ path;
  to_file_path = some path;
  scheme = codes "file";
  cannot_be_a_base = false;
  path = path;
}

abbrev a_url : Url
a_url = url (codes "/a/F.kt")

abbrev b_url : Url
b_url = url (codes "/b/F.kt")

abbrev parse : Text → Option Url
parse s =
    if text_eq s a_url.as_str
    then some a_url
    else if text_eq s b_url.as_str
    then some b_url
    else none

abbrev place : Range
place = record { start_line = 3; start_character = 4; end_line = 3; end_character = 7 }

abbrev symbol : Text → SymbolEntry
symbol name = record {
  name = name;
  kind = 5;
  visibility = public_;
  selection_range = place;
  detail = [];
  container = none;
  extension_receiver = [];
  trailing_lambda = false;
  deprecated = false;
}

abbrev holding : List SymbolEntry → FileData
holding symbols = record {
  symbols = symbols;
  package_name = some (codes "p");
  source_set = main;
  supers = [];
}

abbrev result : Url → List SymbolEntry → FileIndexResult
result u symbols = record { uri = u; data_ = holding symbols; supertypes = []; content_hash = 1 }

abbrev empty : Index
empty = record {
  files = λ uri. none;
  content_hashes = λ uri. none;
  definitions = λ name. [];
  qualified = λ key. none;
  packages = λ pkg. [];
  subtypes = λ name. [];
  extension_by_receiver = λ receiver. [];
  library_uris = λ uri. false;
  bare_names_dirty = false;
}

abbrev edits : List Write
edits =
    file_result (result a_url (symbol (codes "Foo") ∷ []))
    ∷ file_result (result b_url (symbol (codes "Foo") ∷ []))
    ∷ file_result (result a_url (symbol (codes "Bar") ∷ []))
    ∷ reset
    ∷ []

writes-IsDeclared_example : IsDeclared (writes parse [] edits empty)
writes-IsDeclared_example =
    writes-IsDeclared parse [] edits empty (refl, (refl, (refl, (tt, tt)))) (λ name. tt)

abbrev index : Index
index = apply_file_result parse [] (result a_url (symbol (codes "Foo") ∷ [])) empty

abbrev second : FileIndexResult
second = result b_url (symbol (codes "Foo") ∷ [])

apply_file_result-others_example :
    keep
      (elsewhere second.uri.as_str)
      ((apply_file_result parse [] second index).definitions (codes "Foo"))
    ≡ keep (elsewhere second.uri.as_str) (index.definitions (codes "Foo"))
apply_file_result-others_example = apply_file_result-others parse [] second index (codes "Foo")

-- The first file as it is known, and the qualified name of a symbol that the second has as well.
abbrev both : Index
both = record empty {
  files =
      λ uri. if text_eq uri a_url.as_str then some (holding (symbol (codes "Foo") ∷ [])) else none;
  qualified = λ key. some (record { file = b_url.as_str; range = place });
}

abbrev edited : FileIndexResult
edited = result a_url (symbol (codes "Bar") ∷ [])

is_stale :
    contains
      (map
        (λ pair. pair.0)
        (build_qualified_keys (holding (symbol (codes "Foo") ∷ [])) (file_stem_from_uri a_url)))
      (codes "p.Foo")
    ≡ true
unfolding build_qualified_keys file_stem_from_uri split rsplit_once
is_stale = refl

is_not_new :
    last_range (build_qualified_keys edited.data_ (file_stem_from_uri a_url)) (codes "p.Foo") ≡ none
unfolding build_qualified_keys file_stem_from_uri split rsplit_once
is_not_new = refl

apply_file_result-loses_example :
    (apply_file_result parse [] edited both).qualified (codes "p.Foo") ≡ none
apply_file_result-loses_example =
    apply_file_result-loses parse [] edited both (holding (symbol (codes "Foo") ∷ []))
      (codes "p.Foo") refl refl is_stale is_not_new

no_repeat : NoRepeat (located b_url.as_str second.data_.symbols (codes "Foo"))
no_repeat = (tt, tt)

index-IsDeclared : IsDeclared index
unfolding apply_file_result writes apply_contributions write
index-IsDeclared =
    writes-IsDeclared parse [] (file_result (result a_url (symbol (codes "Foo") ∷ [])) ∷ []) empty
      (refl, tt) (λ name. tt)

second_unknown : index.files b_url.as_str ≡ none
unfolding apply_file_result apply_contributions remove_stale_for_uri
second_unknown = refl

apply_contributions_fresh-reference_example :
    (apply_contributions_fresh [] second index).definitions (codes "Foo")
    ≡ (apply_contributions [] second index).definitions (codes "Foo")
apply_contributions_fresh-reference_example =
    apply_contributions_fresh-reference [] second index (codes "Foo") index-IsDeclared
      second_unknown no_repeat

abbrev scanned : List FileIndexResult
scanned = second ∷ edited ∷ []

scanned-Unknown : Unknown (reset_index_state index) scanned
unfolding reset_index_state apply_file_result apply_contributions remove_stale_for_uri
scanned-Unknown = (refl, (refl, tt))

apply_workspace_result-IsDeclared_example : IsDeclared (apply_workspace_result [] scanned index)
apply_workspace_result-IsDeclared_example =
    apply_workspace_result-IsDeclared [] scanned index scanned-Unknown ((refl, tt), (tt, tt))
      index-IsDeclared

abbrev one_file : FileTable
one_file = record { by_id = a_url.as_str ∷ []; by_uri = insert_uri a_url.as_str 0 (λ x. none) }
