-- ===== src/Text.antt =====
-- Texts as lists of code points, with the operations of Rust's `str` and `char` that the source
-- uses. An index counts code points: a byte offset of the source at a character boundary stands
-- for the same place. `byte_len` and `utf16_len` count as the source does.
pub mod Laws
use Prim.Native.Char.{code}
use kmp_lsp.Base.{
  ℕ, zero, suc, ◌+◌, ◌-◌, ◌≡◌, refl, Bool, true, false, not, ◌&&◌, ◌||◌, Option, none, some, List,
  [], ◌∷◌, ◌++◌, String, ltb, leb, ◌==◌, if◌then◌else◌, take, drop, is_empty, length, any, is_some,
  unwrap_or,
}

abbrev pub Text : Type 0
Text = List ℕ

-- The code points of a literal.
abbrev pub codes : String → Text
codes String.[] = []
codes (String.◌∷◌ c s) = code c ∷ codes s

-- The Unicode tables of Rust's standard library. `char::is_alphanumeric` is the disjunction of two.
pub record Unicode : Type 0 where
  pub is_alphabetic : ℕ → Bool
  pub is_numeric : ℕ → Bool
  pub is_uppercase : ℕ → Bool
  pub is_lowercase : ℕ → Bool
  pub char_to_uppercase : ℕ → Text
  pub to_lowercase : Text → Text

abbrev pub is_alphanumeric : Unicode → ℕ → Bool
is_alphanumeric u c = u.is_alphabetic c || u.is_numeric c

abbrev pub between : ℕ → ℕ → ℕ → Bool
between lo hi c = leb lo c && leb c hi

abbrev pub is_ascii_uppercase : ℕ → Bool
is_ascii_uppercase c = between b'A' b'Z' c

abbrev pub is_ascii_lowercase : ℕ → Bool
is_ascii_lowercase c = between b'a' b'z' c

abbrev pub is_ascii_alphabetic : ℕ → Bool
is_ascii_alphabetic c = is_ascii_uppercase c || is_ascii_lowercase c

abbrev pub is_ascii_digit : ℕ → Bool
is_ascii_digit c = between b'0' b'9' c

abbrev pub is_ascii_alphanumeric : ℕ → Bool
is_ascii_alphanumeric c = is_ascii_alphabetic c || is_ascii_digit c

unfoldable pub to_ascii_lowercase : ℕ → ℕ
to_ascii_lowercase c = if is_ascii_uppercase c then c + 32 else c

abbrev pub ascii_lowercase : Text → Text
ascii_lowercase [] = []
ascii_lowercase (c ∷ s) = to_ascii_lowercase c ∷ ascii_lowercase s

abbrev pub is_ascii : Text → Bool
is_ascii [] = true
is_ascii (c ∷ s) = ltb c 128 && is_ascii s

-- The tables on ASCII, for tests and witnesses.
abbrev pub ascii_table : Unicode
ascii_table = record {
  is_alphabetic = is_ascii_alphabetic;
  is_numeric = is_ascii_digit;
  is_uppercase = is_ascii_uppercase;
  is_lowercase = is_ascii_lowercase;
  char_to_uppercase = λ c. (if is_ascii_lowercase c then c - 32 else c) ∷ [];
  to_lowercase = ascii_lowercase;
}

-- The code points with the property White_Space.
unfoldable pub is_whitespace : ℕ → Bool
is_whitespace c =
    between 9 13 c
    || c == 32
    || c == 0x85
    || c == 0xA0
    || c == 0x1680
    || between 0x2000 0x200A c
    || c == 0x2028
    || c == 0x2029
    || c == 0x202F
    || c == 0x205F
    || c == 0x3000

-- The bytes of the UTF-8 form, and the units of the UTF-16 form.
abbrev pub len_utf8 : ℕ → ℕ
len_utf8 c = if ltb c 0x80 then 1 else if ltb c 0x800 then 2 else if ltb c 0x10000 then 3 else 4

abbrev pub len_utf16 : ℕ → ℕ
len_utf16 c = if ltb c 0x10000 then 1 else 2

abbrev pub byte_len : Text → ℕ
byte_len [] = 0
byte_len (c ∷ s) = len_utf8 c + byte_len s

abbrev pub text_eq : Text → Text → Bool
text_eq [] [] = true
text_eq [] (d ∷ t) = false
text_eq (c ∷ s) [] = false
text_eq (c ∷ s) (d ∷ t) = c == d && text_eq s t

-- The pattern stands first.
abbrev pub strip_prefix : Text → Text → Option Text
strip_prefix [] s = some s
strip_prefix (p ∷ ps) [] = none
strip_prefix (p ∷ ps) (c ∷ s) = if p == c then strip_prefix ps s else none

abbrev pub starts_with : Text → Text → Bool
starts_with p s = is_some (strip_prefix p s)

abbrev pub ends_with : Text → Text → Bool
ends_with p [] = text_eq p []
ends_with p (c ∷ s) = text_eq p (c ∷ s) || ends_with p s

abbrev pub ends_with_char : ℕ → Text → Bool
ends_with_char c [] = false
ends_with_char c (d ∷ []) = c == d
ends_with_char c (d ∷ e ∷ s) = ends_with_char c (e ∷ s)

abbrev pub contains_char : ℕ → Text → Bool
contains_char c [] = false
contains_char c (d ∷ s) = c == d || contains_char c s

abbrev pub contains : List Text → Text → Bool
contains [] s = false
contains (t ∷ ts) s = text_eq t s || contains ts s

-- `find` of a pattern: the rest behind the first occurrence decides it, the whole text first.
abbrev pub contains_text : Text → Text → Bool
contains_text p [] = starts_with p []
contains_text p (c ∷ s) = starts_with p (c ∷ s) || contains_text p s

-- `find` and `rfind` of a character.
unfoldable pub find_char : ℕ → Text → Option ℕ
find_char c [] = none
find_char c (d ∷ s) =
    let rest = find_char c s in
    if c == d then some 0 else elim rest [ none ↦ none | some i ↦ some (suc i) ]

unfoldable pub rfind_char : ℕ → Text → Option ℕ
rfind_char c [] = none
rfind_char c (d ∷ s) = elim (rfind_char c s) [
  | some i ↦ some (suc i)
  | none ↦ if c == d then some 0 else none
]

abbrev pub slice : ℕ → ℕ → Text → Text
slice i j s = take (j - i) (drop i s)

-- `trim_start_matches`, `take_while` and `trim_end_matches`, by a test on characters.
abbrev pub drop_while : (ℕ → Bool) → Text → Text
drop_while p [] = []
drop_while p (c ∷ s) = if p c then drop_while p s else c ∷ s

abbrev pub take_while : (ℕ → Bool) → Text → Text
take_while p [] = []
take_while p (c ∷ s) = if p c then c ∷ take_while p s else []

abbrev pub drop_end_while : (ℕ → Bool) → Text → Text
drop_end_while p [] = []
drop_end_while p (c ∷ s) =
    let rest = drop_end_while p s in if is_empty rest && p c then [] else c ∷ rest

unfoldable pub trim_start : Text → Text
unfolding is_whitespace
trim_start s = drop_while is_whitespace s

unfoldable pub trim_end : Text → Text
unfolding is_whitespace
trim_end s = drop_end_while is_whitespace s

unfoldable pub trim : Text → Text
unfolding trim_start trim_end
trim s = trim_end (trim_start s)

-- `split` at the characters that a test accepts. The parts are never none.
abbrev pub push_part : ℕ → List Text → List Text
push_part c [] = (c ∷ []) ∷ []
push_part c (p ∷ ps) = (c ∷ p) ∷ ps

unfoldable pub split : (ℕ → Bool) → Text → List Text
split p [] = [] ∷ []
split p (c ∷ s) = let rest = split p s in if p c then [] ∷ rest else push_part c rest

abbrev pub last_of : List Text → Text → Text
last_of [] d = d
last_of (p ∷ ps) d = last_of ps p

-- `split_once` and `rsplit_once` at a character.
unfoldable pub split_once : ℕ → Text → Option (Text × Text)
split_once c [] = none
split_once c (d ∷ s) =
    let rest = split_once c s in
    if c == d then some ([], s) else elim rest [ none ↦ none | some (a, b) ↦ some (d ∷ a, b) ]

unfoldable pub rsplit_once : ℕ → Text → Option (Text × Text)
rsplit_once c [] = none
rsplit_once c (d ∷ s) = elim (rsplit_once c s) [
  | some (a, b) ↦ some (d ∷ a, b)
  | none ↦ if c == d then some ([], s) else none
]

-- `lines.join("\n")` and the like.
unfoldable pub join : Text → List Text → Text
join sep [] = []
join sep (p ∷ []) = p
join sep (p ∷ q ∷ ps) = p ++ (sep ++ join sep (q ∷ ps))
