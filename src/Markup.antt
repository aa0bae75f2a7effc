-- ===== src/Markup.antt =====
-- indexer/html_md.rs: the HTML that Javadoc embeds, as Markdown. The three loops take fuel.
mod Tests
pub mod Collapse
pub mod Entities
pub mod Ends
use kmp_lsp.Base.{
  ℕ, zero, suc, ◌+◌, ◌-◌, ◌*◌, ◌^◌, ◌≡◌, refl, Bool, true, false, not, ◌&&◌, ◌||◌, Option, none,
  some, List, [], ◌∷◌, ◌++◌, map, String, arith, ltb, leb, ◌==◌, if◌then◌else◌, ◌>>=◌, or_else,
  is_some, is_empty, length,
}
use kmp_lsp.Text.{
  Text, codes, text_eq, contains, contains_char, split_once, starts_with, strip_prefix, trim,
  drop_while, take_while, ascii_lowercase, is_ascii_alphanumeric, is_ascii_digit, between, byte_len,
}

abbrev pub known_html_tags : List String
known_html_tags =
    "p" ∷ "br" ∷ "code" ∷ "tt" ∷ "pre" ∷ "b" ∷ "strong" ∷ "i" ∷ "em" ∷ "li" ∷ "h1" ∷ "h2" ∷ "h3"
    ∷ "h4" ∷ "h5" ∷ "h6" ∷ "ul" ∷ "ol" ∷ "dl" ∷ "dt" ∷ "dd" ∷ "a" ∷ "div" ∷ "span" ∷ "table"
    ∷ "thead" ∷ "tbody" ∷ "tfoot" ∷ "tr" ∷ "td" ∷ "th" ∷ "caption" ∷ "col" ∷ "colgroup"
    ∷ "blockquote" ∷ "hr" ∷ "u" ∷ "s" ∷ "strike" ∷ "del" ∷ "ins" ∷ "sub" ∷ "sup" ∷ "small" ∷ "big"
    ∷ "kbd" ∷ "samp" ∷ "var" ∷ "cite" ∷ "q" ∷ "abbr" ∷ "address" ∷ "center" ∷ "font" ∷ "section"
    ∷ "article" ∷ "header" ∷ "footer" ∷ "nav" ∷ "aside" ∷ "main" ∷ "figure" ∷ "figcaption" ∷ "img"
    ∷ "wbr" ∷ "mark" ∷ "dfn" ∷ "time" ∷ "data" ∷ "ruby" ∷ "bdi" ∷ "bdo" ∷ "picture" ∷ "source"
    ∷ "summary" ∷ "details" ∷ []

abbrev pub tag_table : List Text
tag_table = map codes known_html_tags

unfoldable pub is_known_html_tag : Text → Bool
is_known_html_tag name = contains tag_table name

is_heading : Text → Bool
is_heading name = contains (map codes ("h1" ∷ "h2" ∷ "h3" ∷ "h4" ∷ "h5" ∷ "h6" ∷ [])) name

abbrev is_name : String → Text → Bool
is_name s name = text_eq name (codes s)

-- The arms of the match: what a tag becomes. `tag` is the tag as it is written.
unfoldable pub render_tag : Text → Bool → Bool → Text → Text
unfolding is_heading is_known_html_tag
render_tag name closing in_pre tag =
    if is_name "pre" name
    then codes "\n```\n"
    else if (is_name "code" name || is_name "tt" name) && not in_pre
    then codes "`"
    else if is_name "b" name || is_name "strong" name
    then codes "**"
    else if is_name "i" name || is_name "em" name
    then codes "*"
    else if is_name "p" name && not closing
    then codes "\n\n"
    else if is_name "br" name
    then codes "\n"
    else if is_name "li" name && not closing
    then codes "\n- "
    else if is_heading name
    then (if closing then codes "**\n" else codes "\n\n**")
    else if is_known_html_tag name
    then []
    else tag

-- The lowered text between the brackets: whether it closes, and its element's name.
abbrev pub tag_closes : Text → Bool
tag_closes raw = starts_with (codes "/") raw

abbrev pub tag_name : Text → Text
tag_name raw = take_while is_ascii_alphanumeric (drop_while (λ c. c == b'/') raw)

abbrev pub raw_tag : Text → Text
raw_tag inner = ascii_lowercase (trim inner)

abbrev pub pre_after : Text → Bool → Bool
pre_after raw in_pre = if is_name "pre" (tag_name raw) then not (tag_closes raw) else in_pre

-- A round behind the text `before` a `<`: the tag is looked for in `behind`.
unfoldable pub tag_round : (Bool → Text → Text) → Bool → Text → Option (Text × Text) → Text
tag_round loop in_pre behind none = b'<' ∷ loop in_pre behind
tag_round loop in_pre behind (some (inner, after)) =
    render_tag (tag_name (raw_tag inner)) (tag_closes (raw_tag inner)) in_pre
      (b'<' ∷ (inner ++ codes ">"))
    ++ loop (pre_after (raw_tag inner) in_pre) after

unfoldable pub html_round : (Bool → Text → Text) → Bool → Text → Option (Text × Text) → Text
html_round loop in_pre rest none = rest
html_round loop in_pre rest (some (before, behind)) =
    before ++ tag_round loop in_pre behind (split_once b'>' behind)

unfoldable pub html_loop : ℕ → Bool → Text → Text
html_loop zero in_pre rest = rest
html_loop (suc fuel) in_pre rest =
    html_round (λ p r. html_loop fuel p r) in_pre rest (split_once b'<' rest)

digit_value : ℕ → Option ℕ
digit_value c =
    if is_ascii_digit c
    then some (c - b'0')
    else if between b'a' b'f' c
    then some (c - b'a' + 10)
    else if between b'A' b'F' c
    then some (c - b'A' + 10)
    else none

-- `u32::from_str_radix` behind the sign: every digit below the radix, and no overflow.
parse_digits : ℕ → ℕ → Text → Option ℕ
unfolding digit_value
parse_digits radix acc [] = some acc
parse_digits radix acc (c ∷ s) = do
  d ← digit_value c
  (let acc' = acc * radix + d in
      let rest = parse_digits radix acc' s in
      if leb radix d || leb (2 ^ 32) acc' then none else rest)

parse_u32 : ℕ → Text → Option ℕ
unfolding parse_digits
parse_u32 radix [] = none
parse_u32 radix (c ∷ []) = if c == b'+' then none else parse_digits radix 0 (c ∷ [])
parse_u32 radix (c ∷ d ∷ s) = parse_digits radix 0 (if c == b'+' then d ∷ s else c ∷ d ∷ s)

-- `char::from_u32`: no surrogate, and nothing above U+10FFFF.
from_u32 : ℕ → Option ℕ
from_u32 n = if between 0xD800 0xDFFF n || ltb 0x10FFFF n then none else some n

numeric_entity : Text → Option ℕ
unfolding parse_u32 from_u32
numeric_entity num = do
  n ← elim (or_else (strip_prefix (codes "x") num) (strip_prefix (codes "X") num)) [
    | some hex ↦ parse_u32 16 hex
    | none ↦ parse_u32 10 num
  ]
  from_u32 n

unfoldable pub decode_entity : Text → Option ℕ
unfolding numeric_entity
decode_entity entity =
    if is_name "lt" entity
    then some b'<'
    else if is_name "gt" entity
    then some b'>'
    else if is_name "amp" entity
    then some b'&'
    else if is_name "quot" entity
    then some b'"'
    else if is_name "apos" entity
    then some b'\''
    else if is_name "nbsp" entity
    then some b' '
    else strip_prefix (codes "#") entity >>= numeric_entity

-- What a `;` within ten bytes of the `&` ends.
abbrev pub near_entity : Option (Text × Text) → Option (ℕ × Text)
near_entity none = none
near_entity (some (entity, after)) =
    if leb (1 + byte_len entity) 10
    then elim (decode_entity entity) [ none ↦ none | some ch ↦ some (ch, after) ]
    else none

abbrev pub entity_round : (Text → Text) → Text → Option (ℕ × Text) → Text
entity_round loop behind none = b'&' ∷ loop behind
entity_round loop behind (some (ch, after)) = ch ∷ loop after

abbrev pub decode_round : (Text → Text) → Text → Option (Text × Text) → Text
decode_round loop rest none = rest
decode_round loop rest (some (before, behind)) =
    before ++ entity_round loop behind (near_entity (split_once b';' behind))

unfoldable pub decode_loop : ℕ → Text → Text
decode_loop zero rest = rest
decode_loop (suc fuel) rest = decode_round (λ r. decode_loop fuel r) rest (split_once b'&' rest)

unfoldable pub decode_html_entities : Text → Text
decode_html_entities s = if contains_char b'&' s then decode_loop (suc (length s)) s else s

-- `newlines` counts those just before.
unfoldable pub collapse_from : ℕ → Text → Text
collapse_from newlines [] = []
collapse_from newlines (c ∷ s) =
    let after_newline = collapse_from (newlines + 1) s in
    let after_char = collapse_from 0 s in
    if c == b'\n'
    then (if leb (newlines + 1) 2 then b'\n' ∷ after_newline else after_newline)
    else c ∷ after_char

unfoldable pub collapse_blank_lines : Text → Text
collapse_blank_lines s = collapse_from 0 s

unfoldable pub html_to_markdown : Text → Text
html_to_markdown text =
    if not (contains_char b'<' text) && not (contains_char b'&' text)
    then text
    else collapse_blank_lines (decode_html_entities (html_loop (suc (length text)) false text))
