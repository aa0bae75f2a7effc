-- ===== src/TextUtils.antt =====
-- text_utils.rs: the searches that ignore ASCII case, the test for a declaration, and the
-- replacement of whole words in a file.
mod Tests
pub mod CaseFold
pub mod Declares
pub mod Replace
use kmp_lsp.Base.{
  ℕ, zero, suc, ◌+◌, ◌-◌, ◌*◌, ◌/◌, ◌%◌, ◌≡◌, refl, Bool, true, false, not, ◌&&◌, ◌||◌, Option,
  none, some, List, [], ◌∷◌, ◌++◌, map, String, ltb, ◌==◌, if◌then◌else◌, length, is_empty, take,
  drop, any, zip, all,
}
use kmp_lsp.Text.{
  Text, Unicode, codes, is_ascii, to_ascii_lowercase, contains_text, starts_with, strip_prefix,
  is_ascii_alphanumeric, is_alphanumeric, trim_start,
}

-- The bytes of a character and of a text.
abbrev pub utf8_char : ℕ → List ℕ
utf8_char c =
    if ltb c 0x80
    then c ∷ []
    else if ltb c 0x800
    then (0xC0 + c / 64) ∷ (0x80 + c % 64) ∷ []
    else if ltb c 0x10000
    then (0xE0 + c / 4096) ∷ (0x80 + c / 64 % 64) ∷ (0x80 + c % 64) ∷ []
    else (0xF0 + c / 262144) ∷ (0x80 + c / 4096 % 64) ∷ (0x80 + c / 64 % 64) ∷ (0x80 + c % 64) ∷ []

abbrev pub utf8 : Text → List ℕ
utf8 [] = []
utf8 (c ∷ s) = utf8_char c ++ utf8 s

-- `w.iter().zip(needle).all(|(a, b)| a.to_ascii_lowercase() == *b)`.
abbrev pub all_lowered : List ℕ → List ℕ → Bool
all_lowered [] bs = true
all_lowered (a ∷ w) [] = true
all_lowered (a ∷ w) (b ∷ bs) = to_ascii_lowercase a == b && all_lowered w bs

-- `haystack.windows(nb).any(…)`.
unfoldable pub any_window : List ℕ → List ℕ → Bool
any_window needle [] = is_empty needle
any_window needle (a ∷ s) =
    if ltb (length (a ∷ s)) (length needle)
    then false
    else all_lowered (take (length needle) (a ∷ s)) needle || any_window needle s

unfoldable pub contains_ignore_ascii_case : Unicode → Text → Text → Bool
unfolding any_window
contains_ignore_ascii_case u haystack needle =
    if is_empty needle
    then true
    else if is_ascii haystack
    then (if ltb (length haystack) (length (utf8 needle))
        then false
        else any_window (utf8 needle) haystack)
    else contains_text needle (u.to_lowercase haystack)

unfoldable pub starts_with_ignore_ascii_case : Unicode → Text → Text → Bool
starts_with_ignore_ascii_case u haystack prefix =
    if is_empty prefix
    then true
    else if is_ascii haystack
    then (if ltb (length haystack) (length (utf8 prefix))
        then false
        else all_lowered (take (length (utf8 prefix)) haystack) (utf8 prefix))
    else starts_with prefix (u.to_lowercase haystack)

abbrev pub reference_declaration_keywords : List String
reference_declaration_keywords =
    "class " ∷ "interface " ∷ "object " ∷ "fun " ∷ "val " ∷ "var " ∷ "typealias " ∷ "enum class "
    ∷ "enum " ∷ "struct " ∷ "protocol " ∷ "func " ∷ "let " ∷ "extension " ∷ []

-- What stands behind the first occurrence of a pattern.
abbrev pub after_first : Text → Text → Option Text
after_first p [] = strip_prefix p []
after_first p (c ∷ s) =
    let rest = after_first p s in elim (strip_prefix p (c ∷ s)) [ some r ↦ some r | none ↦ rest ]

abbrev pub at_boundary : Text → Bool
at_boundary [] = true
at_boundary (c ∷ s) = not (is_ascii_alphanumeric c) && not (c == b'_')

unfoldable pub declares_with : Text → Text → Text → Bool
declares_with content name kw = elim (after_first (kw ++ name) content) [
  | some rest ↦ at_boundary rest
  | none ↦ false
]

unfoldable pub is_declaration_of : Text → Text → Bool
unfolding declares_with
is_declaration_of content name =
    any (declares_with content name) (map codes reference_declaration_keywords)

abbrev pub is_word_char : Unicode → ℕ → Bool
is_word_char u c = is_alphanumeric u c || c == b'_'

abbrev before_ok : Unicode → Option ℕ → Bool
before_ok u none = true
before_ok u (some c) = not (is_word_char u c)

abbrev after_ok : Unicode → Text → Bool
after_ok u [] = true
after_ok u (c ∷ s) = not (is_word_char u c)

-- The loop over the characters of a line from position j on. `skip` counts those that a match has
-- consumed already, `previous` is the character before j.
unfoldable pub replace_from : Unicode → Text → Text → ℕ → Option ℕ → Text → Text
replace_from u word replacement skip previous [] = []
replace_from u word replacement (suc skip) previous (c ∷ s) =
    replace_from u word replacement skip (some c) s
replace_from u word replacement zero previous (c ∷ s) =
    let matched = replacement ++ replace_from u word replacement (length word - 1) (some c) s in
    let kept = c ∷ replace_from u word replacement zero (some c) s in
    if starts_with word (c ∷ s) && before_ok u previous && after_ok u (drop (length word) (c ∷ s))
    then matched
    else kept

unfoldable pub replace_line : Unicode → Text → Text → Text → Text
unfolding replace_from
replace_line u word replacement line =
    let trimmed = trim_start line in
    if starts_with (codes "import ") trimmed || starts_with (codes "package ") trimmed
    then line
    else replace_from u word replacement zero none line

-- The loop over the lines behind the first: a newline before each.
unfoldable pub append_lines : (Text → Text) → List Text → Text
append_lines f [] = []
append_lines f (l ∷ ls) = b'\n' ∷ (f l ++ append_lines f ls)

abbrev pub join_lines : List Text → Text
join_lines [] = []
join_lines (l ∷ ls) = l ++ append_lines (λ x. x) ls

unfoldable pub whole_word_replace_file : Unicode → List Text → Text → Text → Text
unfolding append_lines replace_line
whole_word_replace_file u lines [] replacement = join_lines lines
whole_word_replace_file u [] (w ∷ word) replacement = []
whole_word_replace_file u (l ∷ ls) (w ∷ word) replacement =
    replace_line u (w ∷ word) replacement l
    ++ append_lines (replace_line u (w ∷ word) replacement) ls
