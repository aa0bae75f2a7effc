-- ===== src/Index/Store.antt =====
-- The maps of the index and their writers: indexer/apply.rs and `reset_index_state` of indexer.rs.
-- A map is a function: a key that is missing from a map of lists has the empty list, which no reader
-- here tells apart. A loop over a map's entries is then one step at every key.
use kmp_lsp.Base.{
  ℕ, Bool, true, false, not, ◌&&◌, Option, none, some, List, [], ◌∷◌, ◌++◌, map, if◌then◌else◌,
  is_empty, is_some, any, keep,
}
use kmp_lsp.Text.{Text, text_eq, contains}
use kmp_lsp.Resolver.TieBreak.{Url}
use kmp_lsp.Index.Symbols.{
  Range, range_eq, SymbolEntry, Visibility, FileData, SymbolLoc, FileIndexResult,
  file_stem_from_uri, build_qualified_keys, classify_source_set,
}

pub record ExtensionEntry : Type 0 where
  pub file_uri : Text
  pub name : Text
  pub kind : ℕ
  pub detail : Text
  pub visibility : Visibility
  pub package_name : Option Text
  pub trailing_lambda : Bool
  pub deprecated : Bool
  pub container : Option Text

pub record Index : Type 0 where
  pub files : Text → Option FileData
  pub content_hashes : Text → Option ℕ
  pub definitions : Text → List SymbolLoc
  pub qualified : Text → Option SymbolLoc
  pub packages : Text → List Text
  pub subtypes : Text → List SymbolLoc
  pub extension_by_receiver : Text → List ExtensionEntry
  pub library_uris : Text → Bool
  pub bare_names_dirty : Bool

abbrev pub put {ℓ} : {A : Type ℓ} → Text → A → (Text → A) → Text → A
put k v m x = if text_eq k x then v else m x

abbrev pub loc_eq : SymbolLoc → SymbolLoc → Bool
loc_eq a b = text_eq a.file b.file && range_eq a.range b.range

-- `contributions_from_data`, a map for each field.
abbrev pub located : Text → List SymbolEntry → Text → List SymbolLoc
located uri [] name = []
located uri (sym ∷ symbols) name =
    let rest = located uri symbols name in
    if text_eq sym.name name
    then record { file = uri; range = sym.selection_range } ∷ rest
    else rest

-- `collect` into a map: the last pair of a key wins.
abbrev pub last_range : List (Text × Range) → Text → Option Range
last_range [] key = none
last_range ((k, range) ∷ pairs) key = elim (last_range pairs key) [
  | some later ↦ some later
  | none ↦ if text_eq k key then some range else none
]

abbrev pub subtypes_of : List (Text × SymbolLoc) → Text → List SymbolLoc
subtypes_of [] name = []
subtypes_of ((super_name, class_loc) ∷ supertypes) name =
    let rest = subtypes_of supertypes name in
    if text_eq super_name name then class_loc ∷ rest else rest

abbrev extension_entry : Text → Option Text → SymbolEntry → ExtensionEntry
extension_entry uri pkg sym = record {
  file_uri = uri;
  name = sym.name;
  kind = sym.kind;
  detail = sym.detail;
  visibility = sym.visibility;
  package_name = pkg;
  trailing_lambda = sym.trailing_lambda;
  deprecated = sym.deprecated;
  container = sym.container;
}

abbrev pub extensions_of : Text → Option Text → List SymbolEntry → Text → List ExtensionEntry
extensions_of uri pkg [] receiver = []
extensions_of uri pkg (sym ∷ symbols) receiver =
    let rest = extensions_of uri pkg symbols receiver in
    if not (is_empty sym.extension_receiver) && text_eq sym.extension_receiver receiver
    then extension_entry uri pkg sym ∷ rest
    else rest

abbrev pub package_files : Text → Option Text → Text → List Text
package_files uri none pkg = []
package_files uri (some p) pkg = if text_eq p pkg then uri ∷ [] else []

-- `stale_keys_for`.
pub record StaleKeys : Type 0 where
  pub definition_names : List Text
  pub qualified_keys : List Text
  pub package_name : Option Text

unfoldable pub stale_keys_for : Url → FileData → StaleKeys
stale_keys_for uri old_data = record {
  definition_names = map (λ s. s.name) old_data.symbols;
  qualified_keys = map (λ pair. pair.0) (build_qualified_keys old_data (file_stem_from_uri uri));
  package_name = old_data.package_name;
}

-- The loops of `remove_stale_for_uri` over the stale keys.
abbrev pub retain_names : Text → List Text → (Text → List SymbolLoc) → Text → List SymbolLoc
retain_names uri [] m = m
retain_names uri (name ∷ names) m =
    retain_names uri names (put name (keep (λ l. not (text_eq l.file uri)) (m name)) m)

abbrev pub remove_keys : List Text → (Text → Option SymbolLoc) → Text → Option SymbolLoc
remove_keys [] m = m
remove_keys (key ∷ keys) m = remove_keys keys (put key none m)

abbrev pub retain_package : Text → Option Text → (Text → List Text) → Text → List Text
retain_package uri none m = m
retain_package uri (some pkg) m = put pkg (keep (λ f. not (text_eq f uri)) (m pkg)) m

unfoldable pub remove_keys_for : Text → StaleKeys → Index → Index
remove_keys_for uri stale ix = record ix {
  definitions = retain_names uri stale.definition_names ix.definitions;
  qualified = remove_keys stale.qualified_keys ix.qualified;
  packages = retain_package uri stale.package_name ix.packages;
  subtypes = λ name. keep (λ l. not (text_eq l.file uri)) (ix.subtypes name);
  extension_by_receiver =
      λ receiver. keep (λ e. not (text_eq e.file_uri uri)) (ix.extension_by_receiver receiver);
}

abbrev pub remove_known : Text → Option FileData → Option Url → Index → Index
remove_known uri_str none parsed ix = ix
remove_known uri_str (some old) none ix = ix
remove_known uri_str (some old) (some uri) ix = remove_keys_for uri_str (stale_keys_for uri old) ix

-- `Url::parse` of the `url` crate is the first argument.
unfoldable pub remove_stale_for_uri : (Text → Option Url) → Text → Index → Index
remove_stale_for_uri parse uri_str ix = remove_known uri_str (ix.files uri_str) (parse uri_str) ix

-- `if !entry.contains(&x) { entry.push(x) }` in a loop.
abbrev pub push_new : List SymbolLoc → List SymbolLoc → List SymbolLoc
push_new [] entry = entry
push_new (l ∷ ls) entry = push_new ls (if any (loc_eq l) entry then entry else entry ++ l ∷ [])

abbrev pub push_new_files : List Text → List Text → List Text
push_new_files [] entry = entry
push_new_files (f ∷ fs) entry =
    push_new_files fs (if contains entry f then entry else entry ++ f ∷ [])

abbrev pub or_old : Text → Option Range → Option SymbolLoc → Option SymbolLoc
or_old uri none old = old
or_old uri (some range) old = some (record { file = uri; range = range })

-- `slot.retain(…); slot.extend(new_entries)`: all new entries are of one file.
abbrev pub replace_entries : Text → List ExtensionEntry → List ExtensionEntry → List ExtensionEntry
replace_entries uri [] slot = slot
replace_entries uri (e ∷ es) slot = keep (λ x. not (text_eq x.file_uri uri)) slot ++ (e ∷ es)

abbrev pub with_classified_source_set : Text → List Text → FileData → FileData
with_classified_source_set uri source_paths data_ = record data_ {
  source_set = classify_source_set uri source_paths;
}

-- `apply_contributions` of `file_contributions`.
unfoldable pub apply_contributions : List Text → FileIndexResult → Index → Index
apply_contributions source_paths result ix =
    let uri = result.uri.as_str in
    let keys = build_qualified_keys result.data_ (file_stem_from_uri result.uri) in
    record ix {
      files = put uri (some (with_classified_source_set uri source_paths result.data_)) ix.files;
      content_hashes = put uri (some result.content_hash) ix.content_hashes;
      definitions = λ name. push_new (located uri result.data_.symbols name) (ix.definitions name);
      qualified = λ key. or_old uri (last_range keys key) (ix.qualified key);
      packages =
          λ pkg. push_new_files (package_files uri result.data_.package_name pkg) (ix.packages pkg);
      subtypes = λ name. push_new (subtypes_of result.supertypes name) (ix.subtypes name);
      extension_by_receiver = λ receiver.
          replace_entries uri
            (extensions_of uri result.data_.package_name result.data_.symbols receiver)
            (ix.extension_by_receiver receiver);
      bare_names_dirty = true;
    }

unfoldable pub apply_file_result : (Text → Option Url) → List Text → FileIndexResult → Index → Index
apply_file_result parse source_paths result ix =
    apply_contributions source_paths result (remove_stale_for_uri parse result.uri.as_str ix)

abbrev pub of_library : (Text → Bool) → Option SymbolLoc → Option SymbolLoc
of_library is_library none = none
of_library is_library (some l) = if is_library l.file then some l else none

abbrev pub when_library {ℓ} : {A : Type ℓ} → Bool → Option A → Option A
when_library false o = none
when_library true o = o

-- The maps of `reset_index_state` that are modelled: they keep what library files put into them.
unfoldable pub reset_index_state : Index → Index
reset_index_state ix = record ix {
  files = λ uri. when_library (ix.library_uris uri) (ix.files uri);
  definitions = λ name. keep (λ l. ix.library_uris l.file) (ix.definitions name);
  qualified = λ key. of_library ix.library_uris (ix.qualified key);
  packages = λ pkg. keep ix.library_uris (ix.packages pkg);
  subtypes = λ name. keep (λ l. ix.library_uris l.file) (ix.subtypes name);
  content_hashes = λ uri. when_library (ix.library_uris uri) (ix.content_hashes uri);
  extension_by_receiver =
      λ receiver. keep (λ e. ix.library_uris e.file_uri) (ix.extension_by_receiver receiver);
  library_uris = λ uri. ix.library_uris uri && is_some (ix.files uri);
  bare_names_dirty = true;
}
