-- ===== src/TypeText/Args.antt =====
-- The bracket scans of detail_text.rs and indexer/infer/type_subst.rs.
pub mod Split
pub mod Lengths
use kmp_lsp.Base.{
  ℕ, zero, suc, ◌+◌, ◌-◌, ◌≡◌, refl, Bool, true, false, not, ◌&&◌, ◌||◌, Option, none, some, List,
  [], ◌∷◌, ◌++◌, String, arith, ltb, leb, ◌==◌, if◌then◌else◌, ◌>>=◌, is_empty, length, take, ℤ,
  pos, negsuc, up, down, is_zero,
}
use kmp_lsp.Text.{Text, Unicode, find_char, rfind_char, slice, push_part, trim_end, ends_with_char}

-- The depth behind a character.
abbrev pub depth_after : ℤ → ℕ → ℤ
depth_after d c = if c == b'<' then up d else if c == b'>' then down d else d

-- The source's arms: a comma parts at depth 0 alone.
abbrev pub parts_at : ℤ → ℕ → Bool
parts_at d c = c == b',' && is_zero d

abbrev pub split_from : ℤ → Text → List Text
split_from d [] = [] ∷ []
split_from d (c ∷ s) =
    let rest = split_from (depth_after d c) s in
    if parts_at d c then [] ∷ rest else push_part c rest

unfoldable pub split_top_level_commas : Text → List Text
split_top_level_commas param_list = split_from (pos 0) param_list

abbrev pub first_from : ℤ → Text → Text
first_from d [] = []
first_from d (c ∷ s) =
    let rest = first_from (depth_after d c) s in if parts_at d c then [] else c ∷ rest

unfoldable pub first_type_arg : Text → Text
first_type_arg s = first_from (pos 0) s

pub between_brackets : Text → ℕ → ℕ → Option Text
between_brackets type_name open_ close =
    if leb close open_ then none else some (slice (open_ + 1) close type_name)

unfoldable pub type_args_inner : Text → Option Text
unfolding find_char rfind_char between_brackets
type_args_inner type_name = do
  open_ ← find_char b'<' type_name
  close ← rfind_char b'>' type_name
  between_brackets type_name open_ close

-- `rfind_balanced`: the scan from the right, at index `length s - 1` first. It answers with the
-- index of the bracket that brings the depth to 0.
abbrev balanced_from : ℕ → ℕ → ℤ → Text → Option ℕ
balanced_from open_ close d [] = none
balanced_from open_ close d (c ∷ left) =
    let after_close = balanced_from open_ close (up d) left in
    let after_open = balanced_from open_ close (down d) left in
    let after_other = balanced_from open_ close d left in
    if c == close
    then after_close
    else if c == open_
    then (if is_zero (down d) then some (length left) else after_open)
    else after_other

abbrev reverse_onto : Text → Text → Text
reverse_onto [] acc = acc
reverse_onto (c ∷ s) acc = reverse_onto s (c ∷ acc)

unfoldable pub rfind_balanced : Text → ℕ → ℕ → Option ℕ
rfind_balanced string open_ close = balanced_from open_ close (pos 0) (reverse_onto string [])

unfoldable pub strip_trailing_lambda : Text → Text
unfolding trim_end rfind_balanced
strip_trailing_lambda string =
    let result = trim_end string in
    if ends_with_char b'}' result
    then elim (rfind_balanced result b'{' b'}') [
      | none ↦ result
      | some i ↦ trim_end (take i result)
    ]
    else result

-- indexer/infer/sig.rs; it scans bytes, where the two brackets are single ones.
unfoldable pub strip_trailing_call_args : Text → Text
unfolding rfind_balanced
strip_trailing_call_args s =
    if ends_with_char b')' s
    then elim (rfind_balanced s b'(' b')') [ none ↦ s | some i ↦ take i s ]
    else s

unfoldable pub strip_trailing_args : Text → Text
unfolding strip_trailing_call_args trim_end
strip_trailing_args string = trim_end (strip_trailing_call_args string)

abbrev last_dot_from : ℤ → ℕ → Option ℕ → Text → Option ℕ
last_dot_from d i last_dot [] = last_dot
last_dot_from d i last_dot (c ∷ s) =
    let opens = c == b'(' || c == b'[' in
    let closes = c == b')' || c == b']' in
    last_dot_from (if opens then up d else if closes then down d else d) (suc i)
      (if not opens && not closes && c == b'.' && is_zero d then some i else last_dot) s

unfoldable pub find_last_dot_at_depth_zero : Text → Option ℕ
find_last_dot_at_depth_zero string = last_dot_from (pos 0) 0 none string
