-- ===== src/TypeText/Names.antt =====
-- str_ext.rs: the string helpers behind every type text, over the Unicode tables `u`.
use kmp_lsp.Base.{
  ℕ, zero, suc, ◌+◌, ◌-◌, Bool, false, not, ◌&&◌, ◌||◌, Option, none, some, List, [], ◌∷◌, ◌++◌,
  leb, ◌==◌, if◌then◌else◌, take, drop, length, is_empty, or_else, all, get_elem?,
}
use kmp_lsp.Text
use kmp_lsp.Text.{
  Text, Unicode, codes, is_alphanumeric, trim_start, trim_end, trim, take_while, drop_end_while,
  ends_with_char, split, last_of, strip_prefix, split_once, len_utf16, byte_len,
}

abbrev pub is_id_char : Unicode → ℕ → Bool
is_id_char u c = is_alphanumeric u c || c == b'_'

unfoldable pub starts_with_uppercase : Unicode → Text → Bool
starts_with_uppercase u [] = false
starts_with_uppercase u (c ∷ s) = u.is_uppercase c

unfoldable pub starts_with_lowercase : Unicode → Text → Bool
starts_with_lowercase u [] = false
starts_with_lowercase u (c ∷ s) = u.is_lowercase c

unfoldable pub ident_prefix : Unicode → Text → Text
ident_prefix u s = take_while (is_id_char u) s

abbrev is_dotted_char : Unicode → ℕ → Bool
is_dotted_char u c = is_id_char u c || c == b'.'

unfoldable pub dotted_ident_prefix : Unicode → Text → Text
dotted_ident_prefix u s = take_while (is_dotted_char u) s

unfoldable pub bare_type_name : Unicode → Text → Option Text
unfolding trim_start dotted_ident_prefix
bare_type_name u s =
    let name = dotted_ident_prefix u (trim_start s) in if is_empty name then none else some name

-- `rsplit('.').next()`.
unfoldable pub last_segment : Text → Text
unfolding split
last_segment s = last_of (split (λ c. c == b'.') s) s

unfoldable pub is_nullable : Text → Bool
unfolding trim_end
is_nullable s = ends_with_char b'?' (trim_end s)

unfoldable pub strip_nullable : Text → Text
strip_nullable s = drop_end_while (λ c. c == b'?') s

abbrev pub unprojected : Text → Option Text → Text
unprojected trimmed (some rest) = trim_start rest
unprojected trimmed none = trimmed

unfoldable pub strip_variance : Text → Text
strip_variance s =
    let trimmed = trim_start s in
    unprojected trimmed
      (or_else (strip_prefix (codes "out ") trimmed) (strip_prefix (codes "in ") trimmed))

abbrev before_char : ℕ → Text → Text
before_char c [] = []
before_char c (d ∷ s) = if c == d then [] else d ∷ before_char c s

-- `split_once('{')` and then `split_once('=')`, each keeping the left part or the whole.
unfoldable pub decl_prefix : Text → Text
decl_prefix s = before_char b'=' (before_char b'{' s)

-- The first index at which `cu` code units have gone by.
abbrev char_index : ℕ → ℕ → ℕ → Text → ℕ
char_index utf16_col cu i [] = i
char_index utf16_col cu i (c ∷ s) =
    let rest = char_index utf16_col (cu + len_utf16 c) (suc i) s in
    if leb utf16_col cu then i else rest

abbrev is_id_at : Unicode → Text → ℕ → Bool
is_id_at u s i = elim (get_elem? s i) [ none ↦ false | some c ↦ is_id_char u c ]

-- The two loops of `word_at_utf16_col`: `ws` falls, `we` rises, with the distance left as fuel.
abbrev word_start : Unicode → Text → ℕ → ℕ
word_start u s zero = 0
word_start u s (suc ws) = let rest = word_start u s ws in if is_id_at u s ws then rest else suc ws

abbrev word_end : Unicode → Text → ℕ → ℕ → ℕ
word_end u s zero we = we
word_end u s (suc left) we =
    let rest = word_end u s left (suc we) in if is_id_at u s we then rest else we

unfoldable pub word_at_utf16_col : Unicode → Text → ℕ → Text
word_at_utf16_col u s utf16_col =
    let col = char_index utf16_col 0 0 s in
    let ws = word_start u s col in
    let we = word_end u s (length s - col) col in take (we - ws) (drop ws s)

unfoldable pub is_generic_param : Unicode → Text → Bool
is_generic_param u name = not (is_empty name) && leb (byte_len name) 3 && all u.is_uppercase name

unfoldable pub capitalize_first_char : Unicode → Text → Text
capitalize_first_char u [] = []
capitalize_first_char u (c ∷ s) = u.char_to_uppercase c ++ s

abbrev has_segment : Text → List Text → Bool
has_segment name [] = false
has_segment name (p ∷ ps) = Text.text_eq p name || has_segment name ps

unfoldable pub mentions_identifier : Unicode → Text → Text → Bool
unfolding split
mentions_identifier u type_text name =
    has_segment name (split (λ c. not (is_id_char u c)) type_text)

-- `last_ident_in` of indexer/scope.rs: the longest suffix of identifier characters.
unfoldable pub last_ident_in : Unicode → Text → Text
last_ident_in u [] = []
last_ident_in u (c ∷ s) =
    let rest = last_ident_in u s in if all (is_id_char u) s && is_id_char u c then c ∷ s else rest
