-- ===== src/Resolver/Names.antt =====
-- Imports and packages by their text: resolver/fd.rs, resolver/imports.rs, and the languages of
-- types.rs.
use kmp_lsp.Base.{ℕ, Bool, none, some, List, [], ◌∷◌, map, String, ◌==◌, if◌then◌else◌, keep}
use kmp_lsp.Text.{Text, Unicode, codes, contains, split, rsplit_once, join, ends_with}
use kmp_lsp.TypeText.Names.{starts_with_lowercase, starts_with_uppercase}

pub record ImportEntry : Type 0 where
  pub full_path : Text
  pub local_name : Text
  pub is_star : Bool

abbrev pub is_dot : ℕ → Bool
is_dot c = c == b'.'

abbrev pub take_lowercase : Unicode → List Text → List Text
take_lowercase u [] = []
take_lowercase u (p ∷ ps) = if starts_with_lowercase u p then p ∷ take_lowercase u ps else []

unfoldable pub package_prefix : Unicode → Text → Text
package_prefix u import_path = join (codes ".") (take_lowercase u (split is_dot import_path))

-- `rsplit_once('.')`, or the whole path.
abbrev pub without_symbol : Text → Text
without_symbol import_path = elim (rsplit_once b'.' import_path) [
  | some (pkg, symbol) ↦ pkg
  | none ↦ import_path
]

unfoldable pub import_package_prefix : Unicode → Text → Text
import_package_prefix u import_path = package_prefix u (without_symbol import_path)

abbrev last_two : List Text → List Text
last_two [] = []
last_two (a ∷ []) = a ∷ []
last_two (a ∷ b ∷ []) = a ∷ b ∷ []
last_two (a ∷ b ∷ c ∷ ps) = last_two (b ∷ c ∷ ps)

unfoldable pub import_file_stems : Unicode → Text → List Text
import_file_stems u import_path =
    last_two (keep (starts_with_uppercase u) (split is_dot import_path))

abbrev pub default_import_packages : List String
default_import_packages =
    "kotlin" ∷ "kotlin.annotation" ∷ "kotlin.collections" ∷ "kotlin.comparisons" ∷ "kotlin.io"
    ∷ "kotlin.ranges" ∷ "kotlin.sequences" ∷ "kotlin.text" ∷ "kotlin.jvm" ∷ "java.lang" ∷ []

unfoldable pub is_default_import_package : Text → Bool
is_default_import_package pkg = contains (map codes default_import_packages) pkg

pub data Language : Type 0 where
  kotlin java swift : Language

-- `Language::ALL` in order, each by its extensions; Kotlin where none fits.
unfoldable pub from_path : Text → Language
from_path path =
    if ends_with (codes ".java") path
    then java
    else if ends_with (codes ".swift") path
    then swift
    else kotlin
