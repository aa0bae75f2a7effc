-- ===== src/Index/Symbols.antt =====
-- What a parsed file holds (types.rs), its qualified keys (indexer/cache.rs), its supertypes and its
-- source set (indexer/apply.rs). A URL is what the code reads of one of the `url` crate.
use kmp_lsp.Base.{
  ℕ, Bool, false, not, ◌&&◌, ◌||◌, Option, none, some, List, [], ◌∷◌, ◌++◌, ◌==◌, if◌then◌else◌,
  or_else, is_empty, any,
}
use kmp_lsp.Text.{
  Text, codes, text_eq, starts_with, ends_with, contains_text, split, rsplit_once, last_of,
  drop_end_while,
}
use kmp_lsp.TextUtils.{after_first}
use kmp_lsp.Resolver.TieBreak.{Url}

pub record Range : Type 0 where
  pub start_line : ℕ
  pub start_character : ℕ
  pub end_line : ℕ
  pub end_character : ℕ

abbrev pub range_eq : Range → Range → Bool
range_eq a b =
    a.start_line == b.start_line
    && a.start_character == b.start_character
    && a.end_line == b.end_line
    && a.end_character == b.end_character

pub data Visibility : Type 0 where
  public_ internal protected private_ : Visibility

-- The kinds of the protocol, by their numbers. The fields that the write path does not read are
-- left out.
pub record SymbolEntry : Type 0 where
  pub name : Text
  pub kind : ℕ
  pub visibility : Visibility
  pub selection_range : Range
  pub detail : Text
  pub container : Option Text
  pub extension_receiver : Text
  pub trailing_lambda : Bool
  pub deprecated : Bool

pub data SourceSet : Type 0 where
  main test library : SourceSet

pub record FileData : Type 0 where
  pub symbols : List SymbolEntry
  pub package_name : Option Text
  pub source_set : SourceSet
  pub supers : List (ℕ × Text × List Text)

-- A `Location` or a `SymbolLoc`, by the text of its file's URL: the file table gives each such text
-- one `FileId`, so equal ids are equal texts.
pub record SymbolLoc : Type 0 where
  pub file : Text
  pub range : Range

pub record FileIndexResult : Type 0 where
  pub uri : Url
  pub data_ : FileData
  pub supertypes : List (Text × SymbolLoc)
  pub content_hash : ℕ

abbrev class_kinds : List ℕ
class_kinds = 5 ∷ 11 ∷ 23 ∷ 10 ∷ 19 ∷ []

abbrev is_class_kind : ℕ → Bool
is_class_kind k = any (λ c. c == k) class_kinds

abbrev loc_of : Url → SymbolEntry → SymbolLoc
loc_of uri sym = record { file = uri.as_str; range = sym.selection_range }

abbrev supers_of : Url → SymbolEntry → List (ℕ × Text × List Text) → List (Text × SymbolLoc)
supers_of uri sym [] = []
supers_of uri sym ((line, super_name, args) ∷ supers) =
    let rest = supers_of uri sym supers in
    if line == sym.selection_range.start_line then (super_name, loc_of uri sym) ∷ rest else rest

abbrev supertypes_from :
    Url → List (ℕ × Text × List Text) → List SymbolEntry → List (Text × SymbolLoc)
supertypes_from uri supers [] = []
supertypes_from uri supers (sym ∷ symbols) =
    let rest = supertypes_from uri supers symbols in
    if is_class_kind sym.kind then supers_of uri sym supers ++ rest else rest

unfoldable pub derive_supertypes : Url → FileData → List (Text × SymbolLoc)
derive_supertypes uri data_ = supertypes_from uri data_.supers data_.symbols

-- `Path::file_stem` of a name, and the fallback's reading of one: what stands before the last dot,
-- unless that is the first character.
abbrev stem_of : Text → Text
stem_of last = elim (rsplit_once b'.' last) [
  | none ↦ last
  | some (stem, extension) ↦ if is_empty stem then last else stem
]

abbrev last_component : Text → Text
last_component path = last_of (split (λ c. c == b'/') path) path

abbrev named : Text → Option Text
named [] = none
named (c ∷ s) = some (stem_of (c ∷ s))

unfoldable pub file_stem_from_uri : Url → Option Text
file_stem_from_uri uri = elim uri.to_file_path [
  | some p ↦
      or_else (named (last_component (drop_end_while (λ c. c == b'/') p)))
        (named (last_component uri.path))
  | none ↦ named (last_component uri.path)
]

abbrev top_key : Text → SymbolEntry → List (Text × Range)
top_key pkg sym = elim sym.container [
  | none ↦ (pkg ++ codes "." ++ sym.name, sym.selection_range) ∷ []
  | some c ↦ []
]

abbrev stem_key : Text → Option Text → SymbolEntry → List (Text × Range)
stem_key pkg none sym = []
stem_key pkg (some stem) sym =
    if text_eq stem sym.name
    then []
    else (pkg ++ codes "." ++ stem ++ codes "." ++ sym.name, sym.selection_range) ∷ []

abbrev keys_from : Text → Option Text → List SymbolEntry → List (Text × Range)
keys_from pkg stem [] = []
keys_from pkg stem (sym ∷ symbols) =
    top_key pkg sym ++ stem_key pkg stem sym ++ keys_from pkg stem symbols

abbrev keys_in : Option Text → Option Text → List SymbolEntry → List (Text × Range)
keys_in none stem symbols = []
keys_in (some pkg) stem symbols = keys_from pkg stem symbols

unfoldable pub build_qualified_keys : FileData → Option Text → List (Text × Range)
build_qualified_keys data_ stem = keys_in data_.package_name stem data_.symbols

-- The part of a text between the first "/src/" and the next one, if any.
abbrev up_to_src : Text → Text
up_to_src [] = []
up_to_src (c ∷ s) =
    let rest = up_to_src s in if starts_with (codes "/src/") (c ∷ s) then [] else c ∷ rest

abbrev up_to_slash : Text → Text
up_to_slash [] = []
up_to_slash (c ∷ s) = if c == b'/' then [] else c ∷ up_to_slash s

abbrev is_test_segment : Text → Bool
is_test_segment segment =
    not (text_eq segment (codes "testFixtures"))
    && (starts_with (codes "test") segment
        || starts_with (codes "androidTest") segment
        || ends_with (codes "Test") segment)

abbrev test_after : Option Text → Bool
test_after none = false
test_after (some rest) = is_test_segment (up_to_slash (up_to_src rest))

unfoldable pub is_test_source_set : Text → Bool
is_test_source_set uri = test_after (after_first (codes "/src/") uri)

unfoldable pub classify_source_set : Text → List Text → SourceSet
unfolding is_test_source_set
classify_source_set uri source_paths =
    if any (λ source_path. contains_text source_path uri) source_paths
    then library
    else if is_test_source_set uri
    then test
    else main
