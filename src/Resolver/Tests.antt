-- ===== src/Resolver/Tests.antt =====
-- Runs of the tie-breaks, of automatic imports and of the reading of cache paths.
use kmp_lsp.Base.{
  ◌≡◌, ◌≤◌, refl, true, false, not, Option, some, none, List, [], ◌∷◌, ◌++◌, arith, All, length,
  drop, if◌then◌else◌, keep,
}
use kmp_lsp.Text.{Text, codes, text_eq, ascii_table, trim_start, is_whitespace, split}
use kmp_lsp.Resolver.Gradle.{GradleMeta, parse_jar_meta}
use kmp_lsp.Resolver.Gradle.RoundTrip.{cache_path, parse_jar_meta-cache_path}
use kmp_lsp.Resolver.ImportEdit.{import_insertion_line, is_import_line}
use kmp_lsp.Resolver.TieBreak.{
  Url, Location, Indexer, narrowed, is_denylisted_package_prefix, is_dependency,
  candidate_gradle_meta, owning_module_dependencies, module_scoped_tie_break,
  ambiguity_safe_tail_with_denylist, path_from_uri, location_package, jar_symbol_package,
  path_starts_with,
}
use kmp_lsp.Resolver.TieBreak.Unique.{tail-length}
use kmp_lsp.Resolver.TieBreak.Narrows.{tail-dependency}

abbrev file_lines : List Text
file_lines = codes "package a.b" ∷ codes "import a.c.X" ∷ codes "class C" ∷ []

after_the_import : import_insertion_line file_lines ≡ 2
unfolding import_insertion_line is_import_line trim_start is_whitespace
after_the_import = refl

parse_jar_meta-cache_path_example :
    parse_jar_meta (
      cache_path
        (codes "/g/files-2.1")
        (record { group = codes "org.x"; artifact = codes "lib"; version = codes "1.2" })
        (codes "abc/lib.jar"))
    ≡ some (record { group = codes "org.x"; artifact = codes "lib"; version = codes "1.2" })
parse_jar_meta-cache_path_example =
    parse_jar_meta-cache_path (codes "/g/files-2.1") b'o' (codes "rg.x") (codes "lib") (codes "1.2")
      (codes "abc/lib.jar") refl (ground arith) (ground arith) (ground arith)

-- A `file:` URL by the path behind its scheme.
abbrev file_url : Text → Url
file_url path = record {
  as_str = codes "file://" ++ path;
  to_file_path = some path;
  scheme = codes "file";
  cannot_be_a_base = false;
  path = path;
}

abbrev jar_url : Text → Url
jar_url path = record {
  as_str = codes "jar:file://" ++ path;
  to_file_path = none;
  scheme = codes "jar";
  cannot_be_a_base = true;
  path = codes "file://" ++ path;
}

-- A parser that knows the URLs of the JARs below.
abbrev parse_file : Text → Option Url
parse_file s = some (file_url (drop 7 s))

abbrev origin : Url
origin = file_url (codes "/w/app/A.kt")

abbrev jar_of : Text → Location
jar_of group = record {
  uri = jar_url (codes "/g/files-2.1/" ++ group ++ codes "/l/1/h/l.jar");
  line = 0;
}

abbrev ours : Location
ours = jar_of (codes "org.x")

abbrev theirs : Location
theirs = jar_of (codes "com.y")

abbrev hidden : Location
hidden = jar_of (codes "android")

abbrev dependency : GradleMeta
dependency = record { group = codes "org.x"; artifact = codes "l"; version = codes "1" }

abbrev packages_of : Text → Option (List Text)
packages_of uri =
    if text_eq uri (hidden.uri.as_str)
    then some (codes "com.android.internal.util" ∷ [])
    else some (codes "pkg" ∷ [])

abbrev index : Indexer
index = record {
  jar_symbol_packages = packages_of;
  files = λ uri. none;
  jar_files = λ uri. none;
  module_dependencies =
      record { content_root = codes "/w/app"; dependencies = dependency ∷ [] } ∷ [];
}

tail-length_example :
    length (
      ambiguity_safe_tail_with_denylist ascii_table parse_file index origin
        (theirs ∷ hidden ∷ ours ∷ []))
    ≤ 1
tail-length_example = tail-length ascii_table parse_file index origin (theirs ∷ hidden ∷ ours ∷ [])

owns : owning_module_dependencies index origin ≡ some (dependency ∷ [])
unfolding owning_module_dependencies path_from_uri path_starts_with split
owns = refl

narrows :
    module_scoped_tie_break parse_file index origin
      (keep (λ c. not (is_denylisted_package_prefix index c)) (theirs ∷ hidden ∷ ours ∷ []))
    ≡ narrowed (ours ∷ [])
unfolding module_scoped_tie_break owning_module_dependencies path_from_uri path_starts_with split
    is_denylisted_package_prefix location_package jar_symbol_package candidate_gradle_meta
    parse_jar_meta
narrows = refl

tail-dependency_example :
    All
      (λ c. is_dependency (dependency ∷ []) (candidate_gradle_meta parse_file c) ≡ true)
      (ambiguity_safe_tail_with_denylist ascii_table parse_file index origin
        (theirs ∷ hidden ∷ ours ∷ []))
tail-dependency_example =
    tail-dependency ascii_table parse_file index origin theirs hidden (ours ∷ []) (ours ∷ [])
      (dependency ∷ []) owns narrows
