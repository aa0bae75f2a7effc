-- ===== src/Resolver/TieBreak.antt =====
-- Narrowing same-named candidates: resolver/tie_break.rs, with `location_package` of
-- resolver/package.rs and `path_from_uri` of path_util.rs.
pub mod Unique
pub mod Narrows
use kmp_lsp.Base.{
  ℕ, zero, suc, ◌+◌, Bool, true, false, not, ◌&&◌, ◌||◌, Option, none, some, List, [], ◌∷◌, map,
  leb, ◌==◌, if◌then◌else◌, ◌>>=◌, or_else, is_some, is_empty, any, keep, get_elem?,
}
use kmp_lsp.Text.{
  Text, Unicode, codes, text_eq, byte_len, contains, drop_end_while, split, split_once, starts_with,
  strip_prefix,
}
use kmp_lsp.Resolver.Names.{
  ImportEntry, import_package_prefix, is_default_import_package, is_dot, Language, kotlin, java,
  swift, from_path,
}
use kmp_lsp.Resolver.Gradle.{GradleMeta, parse_jar_meta, meta_eq}

-- What the code asks a parsed URL of the `url` crate.
pub record Url : Type 0 where
  pub as_str : Text
  pub to_file_path : Option Text
  pub scheme : Text
  pub cannot_be_a_base : Bool
  pub path : Text

-- A location by its file and the line that its range starts at.
pub record Location : Type 0 where
  pub uri : Url
  pub line : ℕ

pub record FileData : Type 0 where
  pub package_name : Option Text
  pub imports : List ImportEntry

-- A module's content root with the dependencies of that module.
pub record ContentRoot : Type 0 where
  pub content_root : Text
  pub dependencies : List GradleMeta

-- The maps of the indexer that are read, each by the text of a URL.
pub record Indexer : Type 0 where
  pub jar_symbol_packages : Text → Option (List Text)
  pub files : Text → Option FileData
  pub jar_files : Text → Option FileData
  pub module_dependencies : List ContentRoot

abbrev pub unless_empty : Text → Option Text
unless_empty [] = none
unless_empty (c ∷ s) = some (c ∷ s)

unfoldable pub path_from_uri : Url → Option Text
path_from_uri uri = elim uri.to_file_path [
  | some path ↦ some path
  | none ↦
      if not (text_eq uri.scheme (codes "file")) || uri.cannot_be_a_base
      then none
      else unless_empty uri.path
]

unfoldable pub jar_symbol_package : Indexer → Location → Option Text
jar_symbol_package indexer loc = do
  packages ← indexer.jar_symbol_packages loc.uri.as_str
  p ← get_elem? packages loc.line
  unless_empty p

unfoldable pub location_package : Indexer → Location → Option Text
location_package indexer location = or_else (jar_symbol_package indexer location) (
    or_else (indexer.files location.uri.as_str >>= λ f. f.package_name)
      (indexer.jar_files location.uri.as_str >>= λ f. f.package_name))

abbrev pub denylisted_package_prefixes : List Text
denylisted_package_prefixes = codes "com.android.internal." ∷ []

abbrev pub is_under : Text → Text → Bool
is_under pkg prefix = text_eq pkg (drop_end_while is_dot prefix) || starts_with prefix pkg

unfoldable pub is_denylisted_package_prefix : Indexer → Location → Bool
is_denylisted_package_prefix indexer location = elim (location_package indexer location) [
  | none ↦ false
  | some pkg ↦ any (is_under pkg) denylisted_package_prefixes
]

-- `Path::starts_with` by components, on a file system with `/`: a repeated separator and an inner
-- `.` are no component, a root is one.
abbrev is_slash : ℕ → Bool
is_slash c = c == b'/'

abbrev is_component : Text → Bool
is_component p = not (is_empty p || text_eq p (codes "."))

abbrev from_head : List Text → List Text
from_head [] = []
from_head (p ∷ ps) = if is_empty p then codes "/" ∷ ps else p ∷ ps

abbrev after_head : List Text → List Text
after_head [] = []
after_head (p ∷ ps) = p ∷ keep is_component ps

components : Text → List Text
components path = if is_empty path then [] else after_head (from_head (split is_slash path))

abbrev begins_with : List Text → List Text → Bool
begins_with [] ps = true
begins_with (q ∷ qs) [] = false
begins_with (q ∷ qs) (p ∷ ps) = text_eq q p && begins_with qs ps

unfoldable pub path_starts_with : Text → Text → Bool
unfolding components
path_starts_with root path = begins_with (components root) (components path)

-- `max_by_key` keeps the last of several greatest.
abbrev pub max_by_length : Option ContentRoot → List ContentRoot → Option ContentRoot
max_by_length best [] = best
max_by_length none (e ∷ es) = max_by_length (some e) es
max_by_length (some b) (e ∷ es) =
    max_by_length (some (if leb (byte_len b.content_root) (byte_len e.content_root) then e else b))
      es

unfoldable pub owning_module_dependencies : Indexer → Url → Option (List GradleMeta)
owning_module_dependencies indexer from_uri = do
  file_path ← path_from_uri from_uri
  e ←
      max_by_length none
        (keep (λ e. path_starts_with e.content_root file_path) indexer.module_dependencies)
  some e.dependencies

abbrev before_entry : Text → Option (Text × Text) → Text
before_entry rest none = rest
before_entry rest (some (jar, entry)) = jar

-- `split_once("!/")`.
abbrev split_entry : Text → Option (Text × Text)
split_entry [] = none
split_entry (c ∷ s) =
    let rest = split_entry s in
    elim (strip_prefix (codes "!/") (c ∷ s)) [
      | some entry ↦ some ([], entry)
      | none ↦ elim rest [ none ↦ none | some (a, b) ↦ some (c ∷ a, b) ]
    ]

-- `Url::parse` of the `url` crate is the first argument.
unfoldable pub candidate_gradle_meta : (Text → Option Url) → Location → Option GradleMeta
candidate_gradle_meta parse location = do
  rest ← strip_prefix (codes "jar:") location.uri.as_str
  url ← parse (before_entry rest (split_entry rest))
  jar_path ← path_from_uri url
  parse_jar_meta jar_path

pub data ModuleScopedOutcome : Type 0 where
  no_data : ModuleScopedOutcome
  no_dependencies_survived : ModuleScopedOutcome
  narrowed : List Location → ModuleScopedOutcome

abbrev pub is_dependency : List GradleMeta → Option GradleMeta → Bool
is_dependency dependencies none = false
is_dependency dependencies (some meta) = any (meta_eq meta) dependencies

abbrev pub outcome_of : List Location → ModuleScopedOutcome
outcome_of [] = no_dependencies_survived
outcome_of (l ∷ ls) = narrowed (l ∷ ls)

abbrev pub scoped :
    (Text → Option Url) → List Location → Option (List GradleMeta) → ModuleScopedOutcome
scoped parse locations none = no_data
scoped parse locations (some dependencies) =
    outcome_of (keep (λ l. is_dependency dependencies (candidate_gradle_meta parse l)) locations)

unfoldable pub module_scoped_tie_break :
    (Text → Option Url) → Indexer → Url → List Location → ModuleScopedOutcome
module_scoped_tie_break parse indexer origin locations =
    scoped parse locations (owning_module_dependencies indexer origin)

abbrev pub in_packages : (Text → Bool) → Option Text → Bool
in_packages test none = false
in_packages test (some pkg) = test pkg

abbrev pub or_all : List Location → List Location → List Location
or_all locations [] = locations
or_all locations (l ∷ ls) = l ∷ ls

abbrev pub prefer_default : Indexer → List Location → Language → List Location
prefer_default indexer locations kotlin =
    or_all locations
      (keep (λ l. in_packages is_default_import_package (location_package indexer l)) locations)
prefer_default indexer locations java = locations
prefer_default indexer locations swift = locations

unfoldable pub default_kotlin_import_tie_break : Indexer → Url → List Location → List Location
default_kotlin_import_tie_break indexer origin locations =
    prefer_default indexer locations (from_path origin.as_str)

abbrev pub package_of_import : Unicode → ImportEntry → Text
package_of_import u i = if i.is_star then i.full_path else import_package_prefix u i.full_path

-- A list of one, or none.
abbrev pub unique : List Location → List Location
unique [] = []
unique (l ∷ []) = l ∷ []
unique (l ∷ m ∷ ls) = []

abbrev pub among : Indexer → List Location → List Text → List Location
among indexer locations [] = []
among indexer locations (p ∷ ps) =
    unique (keep (λ l. in_packages (contains (p ∷ ps)) (location_package indexer l)) locations)

abbrev pub among_imports : Unicode → Indexer → List Location → Option FileData → List Location
among_imports u indexer locations none = []
among_imports u indexer locations (some f) =
    among indexer locations (map (package_of_import u) f.imports)

unfoldable pub import_package_tie_break : Unicode → Indexer → Url → List Location → List Location
import_package_tie_break u indexer origin locations =
    among_imports u indexer locations (indexer.files origin.as_str)

abbrev pub import_round : Unicode → Indexer → Url → List Location → List Location
import_round u indexer origin [] = import_package_tie_break u indexer origin []
import_round u indexer origin (l ∷ []) = l ∷ []
import_round u indexer origin (l ∷ m ∷ ls) = import_package_tie_break u indexer origin (l ∷ m ∷ ls)

abbrev pub after_scope :
    Unicode → Indexer → Url → List Location → ModuleScopedOutcome → List Location
after_scope u indexer origin filtered no_data =
    import_round u indexer origin (default_kotlin_import_tie_break indexer origin filtered)
after_scope u indexer origin filtered no_dependencies_survived =
    import_round u indexer origin (default_kotlin_import_tie_break indexer origin filtered)
after_scope u indexer origin filtered (narrowed []) =
    import_round u indexer origin (default_kotlin_import_tie_break indexer origin [])
after_scope u indexer origin filtered (narrowed (l ∷ [])) = l ∷ []
after_scope u indexer origin filtered (narrowed (l ∷ m ∷ ls)) =
    import_round u indexer origin (default_kotlin_import_tie_break indexer origin (l ∷ m ∷ ls))

abbrev pub after_denylist :
    Unicode → (Text → Option Url) → Indexer → Url → List Location → List Location
after_denylist u parse indexer origin [] = []
after_denylist u parse indexer origin (l ∷ []) = l ∷ []
after_denylist u parse indexer origin (l ∷ m ∷ ls) =
    after_scope u indexer origin (l ∷ m ∷ ls)
      (module_scoped_tie_break parse indexer origin (l ∷ m ∷ ls))

unfoldable pub ambiguity_safe_tail_with_denylist :
    Unicode → (Text → Option Url) → Indexer → Url → List Location → List Location
ambiguity_safe_tail_with_denylist u parse indexer origin [] = []
ambiguity_safe_tail_with_denylist u parse indexer origin (l ∷ []) = l ∷ []
ambiguity_safe_tail_with_denylist u parse indexer origin (l ∷ m ∷ ls) =
    after_denylist u parse indexer origin
      (keep (λ c. not (is_denylisted_package_prefix indexer c)) (l ∷ m ∷ ls))
