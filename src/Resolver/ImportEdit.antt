-- ===== src/Resolver/ImportEdit.antt =====
-- Automatic imports: resolver/import_edit.rs.
pub mod Placement
use kmp_lsp.Base.{
  ℕ, zero, suc, ◌+◌, ◌-◌, Bool, true, false, not, ◌&&◌, Option, none, some, List, [], ◌∷◌, ◌++◌,
  ltb, if◌then◌else◌, any, is_empty, get_elem?,
}
use kmp_lsp.Text.{Text, codes, text_eq, rsplit_once, starts_with, trim_start, trim, split}
use kmp_lsp.Resolver.Names.{ImportEntry}

abbrev last_seg_of : Text → Text
last_seg_of fqn = elim (rsplit_once b'.' fqn) [ some (pkg, name) ↦ name | none ↦ fqn ]

abbrev pkg_of : Text → Text
pkg_of fqn = elim (rsplit_once b'.' fqn) [ some (pkg, name) ↦ pkg | none ↦ [] ]

abbrev covers : Text → ImportEntry → Bool
covers fqn imp =
    if imp.is_star
    then text_eq imp.full_path (pkg_of fqn)
    else text_eq imp.full_path fqn && text_eq imp.local_name (last_seg_of fqn)

unfoldable pub already_imported : Text → List ImportEntry → Bool
already_imported fqn imports = any (covers fqn) imports

unfoldable pub is_import_line : Text → Bool
is_import_line l = starts_with (codes "import ") (trim_start l)

unfoldable pub is_package_line : Text → Bool
is_package_line l = starts_with (codes "package ") (trim_start l)

-- The index of the last line, and of the first, that passes a test.
abbrev pub rposition : (Text → Bool) → List Text → Option ℕ
rposition p [] = none
rposition p (l ∷ ls) = elim (rposition p ls) [
  | some i ↦ some (suc i)
  | none ↦ if p l then some 0 else none
]

abbrev pub position : (Text → Bool) → List Text → Option ℕ
position p [] = none
position p (l ∷ ls) =
    let rest = position p ls in
    if p l then some 0 else elim rest [ none ↦ none | some i ↦ some (suc i) ]

abbrev pub after_package : Option ℕ → ℕ
after_package none = 0
after_package (some i) = i + 1

abbrev pub after_import : List Text → Option ℕ → ℕ
after_import lines (some i) = i + 1
after_import lines none = after_package (position is_package_line lines)

unfoldable pub import_insertion_line : List Text → ℕ
import_insertion_line lines = after_import lines (rposition is_import_line lines)

pub record TextEdit : Type 0 where
  pub line : ℕ
  pub new_text : Text

abbrev tests : (Text → Bool) → Option Text → Bool
tests p none = false
tests p (some l) = p l

unfoldable pub needs_blank : List Text → ℕ → Bool
needs_blank lines zero = false
needs_blank lines (suc n) =
    tests is_package_line (get_elem? lines n)
    && tests (λ l. not (is_empty (trim l))) (get_elem? lines (suc n))

abbrev pub statement : Text → Bool → Text
statement fqn needs_semicolon =
    codes "import " ++ (fqn ++ (if needs_semicolon then codes ";" else []))

-- The edit is empty: it starts and ends in column 0 of the line.
unfoldable pub make_import_edit : Text → List Text → Bool → TextEdit
make_import_edit fqn lines needs_semicolon =
    let line = import_insertion_line lines in
    record {
      line = line;
      new_text =
          (if needs_blank lines line then codes "\n" else [])
          ++ (statement fqn needs_semicolon ++ codes "\n");
    }

-- What the client does with an edit of whole lines, and the lines of the inserted text.
abbrev pub new_lines : Text → List Text → Bool → List Text
new_lines fqn lines needs_semicolon =
    if needs_blank lines (import_insertion_line lines)
    then [] ∷ statement fqn needs_semicolon ∷ []
    else statement fqn needs_semicolon ∷ []
