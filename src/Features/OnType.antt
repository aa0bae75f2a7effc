-- ===== src/Features/OnType.antt =====
-- Indentation and comments behind a new line: features/on_type_formatting.rs.
pub mod Settles
pub mod Reindented
pub mod Brace
use kmp_lsp.Base.{
  ℕ, zero, suc, ◌+◌, ◌-◌, ◌%◌, ◌^◌, Bool, true, false, not, ◌&&◌, ◌||◌, Option, none, some, List,
  [], ◌∷◌, ◌++◌, ◌==◌, if◌then◌else◌, is_empty, get_elem?, unwrap_or,
}
use kmp_lsp.Text.{
  Text, codes, text_eq, byte_len, trim, trim_start, trim_end, starts_with, strip_prefix,
  ends_with_char, take_while,
}

pub record Position : Type 0 where
  pub line : ℕ
  pub character : ℕ

pub record FormattingOptions : Type 0 where
  pub tab_size : ℕ
  pub insert_spaces : Bool

-- An edit within one line, or from the start of it over its end.
pub record TextEdit : Type 0 where
  pub start_line : ℕ
  pub start_char : ℕ
  pub end_line : ℕ
  pub end_char : ℕ
  pub new_text : Text

abbrev pub as_u32 : ℕ → ℕ
as_u32 n = n % 2 ^ 32

abbrev pub is_blank : ℕ → Bool
is_blank c = c == b' ' || c == 9

unfoldable pub leading_whitespace : Text → Text
leading_whitespace s = take_while is_blank s

abbrev toggled : Bool → ℕ → Bool
toggled in_string c = if c == b'"' then not in_string else in_string

-- Behind a backslash in a string the next character is passed over.
unfoldable pub string_after : Bool → Text → Bool
string_after in_string [] = in_string
string_after in_string (c ∷ []) = toggled in_string c
string_after in_string (c ∷ d ∷ s) =
    let escaped = string_after in_string s in
    let rest = string_after (toggled in_string c) (d ∷ s) in
    if c == b'\\' && in_string then escaped else rest

unfoldable pub is_in_string_context : Text → Bool
is_in_string_context line = string_after false line

unfoldable pub comment_continuation_prefix : Text → Option Text
comment_continuation_prefix trimmed =
    if starts_with (codes "///") trimmed
    then some (codes "///")
    else if starts_with (codes "//!") trimmed
    then some (codes "//!")
    else if starts_with (codes "/**") trimmed
    then some (codes " *")
    else if starts_with (codes "* ") trimmed || text_eq trimmed (codes "*")
    then some (codes "*")
    else if starts_with (codes "// ") trimmed || text_eq trimmed (codes "//")
    then some (codes "//")
    else none

-- An edit that replaces the first bytes of a line.
abbrev pub replace_start : ℕ → ℕ → Text → TextEdit
replace_start line len new_text = record {
  start_line = as_u32 line;
  start_char = 0;
  end_line = as_u32 line;
  end_char = as_u32 len;
  new_text = new_text;
}

unfoldable pub line_at : List Text → ℕ → Text
line_at lines i = unwrap_or (get_elem? lines i) []

-- The bytes that `trim_start` takes off.
unfoldable pub indent_len : Text → ℕ
indent_len s = byte_len s - byte_len (trim_start s)

abbrev pub reindent : ℕ → Text → Text → List TextEdit
reindent line cur wanted =
    if indent_len cur == byte_len wanted
    then []
    else replace_start line (indent_len cur) wanted ∷ []

abbrev pub unless_none : List TextEdit → Option (List TextEdit)
unless_none [] = none
unless_none (e ∷ es) = some (e ∷ es)

abbrev closing_text : Text → Text → Text → Text
closing_text indent inner_indent after_close =
    if is_empty after_close
    then inner_indent ++ 10 ∷ indent ++ b'}' ∷ []
    else inner_indent ++ 10 ∷ indent ++ codes "} " ++ after_close

-- The line behind a blank cursor line, where it starts with the closing brace.
abbrev pub closing_below : Option Text → Bool → Option Text
closing_below none blank = none
closing_below (some next_line) blank =
    if blank && starts_with (codes "}") (trim_start next_line) then some next_line else none

abbrev pub fix_lines : ℕ → Text → Text → Text → Option Text → Option (List TextEdit)
fix_lines cursor_line cur indent inner_indent none =
    unless_none (reindent cursor_line cur inner_indent)
fix_lines cursor_line cur indent inner_indent (some next_line) =
    unless_none
      (reindent cursor_line cur inner_indent ++ reindent (cursor_line + 1) next_line indent)

abbrev pub split_pair : Option Text → ℕ → Text → Text → Text → Option Text → Option (List TextEdit)
split_pair next_line cursor_line cur indent inner_indent (some after_brace) = some (
    replace_start cursor_line (byte_len cur)
      (closing_text indent inner_indent (trim_start after_brace))
    ∷ [])
split_pair next_line cursor_line cur indent inner_indent none =
    fix_lines cursor_line cur indent inner_indent
      (closing_below next_line (is_empty (trim_start cur)))

unfoldable pub brace_on : Text → Option Text → ℕ → Text → Text → Option (List TextEdit)
brace_on cur next_line cursor_line indent tab =
    split_pair next_line cursor_line cur indent (indent ++ tab)
      (strip_prefix (codes "}") (trim_start cur))

unfoldable pub brace_newline : List Text → ℕ → Text → Text → Option (List TextEdit)
brace_newline lines cursor_line indent tab =
    brace_on (line_at lines cursor_line) (get_elem? lines (cursor_line + 1)) cursor_line indent tab

unfoldable pub comment_on : Text → ℕ → Text → Text → Option (List TextEdit)
comment_on cur cursor_line indent prefix =
    if starts_with prefix (trim_start cur)
    then none
    else some (replace_start cursor_line (indent_len cur) (indent ++ prefix ++ b' ' ∷ []) ∷ [])

unfoldable pub comment_newline : List Text → ℕ → Text → Text → Option (List TextEdit)
comment_newline lines cursor_line indent prefix =
    comment_on (line_at lines cursor_line) cursor_line indent prefix

abbrev pub repeat : ℕ → ℕ → Text
repeat c zero = []
repeat c (suc n) = c ∷ repeat c n

abbrev pub tab_of : FormattingOptions → Text
tab_of options = if options.insert_spaces then repeat b' ' options.tab_size else 9 ∷ []

abbrev continued : List Text → ℕ → Text → Option Text → Option (List TextEdit)
continued lines cursor_line indent none = none
continued lines cursor_line indent (some prefix) = comment_newline lines cursor_line indent prefix

abbrev pub opens_block : Text → Bool
opens_block prev_trimmed =
    ends_with_char b'{' prev_trimmed && not (is_in_string_context prev_trimmed)

abbrev behind : List Text → ℕ → FormattingOptions → Option Text → Option (List TextEdit)
behind lines cursor_line options none = none
behind lines cursor_line options (some prev_line) =
    if opens_block (trim_end prev_line)
    then brace_newline lines cursor_line (leading_whitespace prev_line) (tab_of options)
    else continued lines cursor_line (leading_whitespace prev_line)
        (comment_continuation_prefix (trim prev_line))

unfoldable pub on_newline : List Text → Position → FormattingOptions → Option (List TextEdit)
on_newline lines position options =
    if position.line == 0
    then none
    else behind lines position.line options (get_elem? lines (position.line - 1))

unfoldable pub compute_on_type_formatting :
    List Text → Position → Text → FormattingOptions → Option (List TextEdit)
compute_on_type_formatting lines position ch options =
    if text_eq ch (10 ∷ []) then on_newline lines position options else none
