-- ===== src/Completion/Matching.antt =====
-- How well a name fits what was typed: the scoring in resolver/complete.rs.
use kmp_lsp.Base.{
  ℕ, Bool, true, false, not, ◌&&◌, ◌||◌, Option, none, some, [], ◌∷◌, ◌==◌, if◌then◌else◌, is_empty,
  any, all, unwrap_or, head?,
}
use kmp_lsp.Text.{Text, Unicode, ascii_lowercase, starts_with, contains_text, is_ascii_digit}

abbrev is_screaming_char : Unicode → ℕ → Bool
is_screaming_char u c = u.is_uppercase c || c == b'_' || is_ascii_digit c

unfoldable pub is_screaming_snake : Unicode → Text → Bool
is_screaming_snake u name = any u.is_alphabetic name && all (is_screaming_char u) name

abbrev next_lowercase : Unicode → Text → Bool
next_lowercase u [] = false
next_lowercase u (c ∷ s) = u.is_lowercase c

-- Whether a character starts a word, by the one before it and the rest behind it.
unfoldable pub is_word_start : Unicode → Option ℕ → ℕ → Text → Bool
is_word_start u none c rest = true
is_word_start u (some p) c rest =
    c == b'_'
    || p == b'_'
    || (u.is_uppercase c && u.is_lowercase p)
    || (u.is_uppercase c && u.is_uppercase p && next_lowercase u rest)

abbrev first_lowercase : Unicode → ℕ → ℕ
first_lowercase u c = unwrap_or (head? (u.to_lowercase (c ∷ []))) c

unfoldable pub word_starts : Unicode → Option ℕ → Text → Text
word_starts u p [] = []
word_starts u p (c ∷ s) =
    let rest = word_starts u (some c) s in
    if is_word_start u p c s && not (c == b'_') then first_lowercase u c ∷ rest else rest

-- The loop over the starts of words, for one character of the prefix: what stands behind the first
-- start that is it.
unfoldable pub seek : ℕ → Text → Option Text
seek pc [] = none
seek pc (w ∷ ws) = let rest = seek pc ws in if w == pc then some ws else rest

unfoldable pub matches_starts : Text → Text → Bool
matches_starts [] ws = true
matches_starts (pc ∷ pcs) ws = elim (seek pc ws) [
  | none ↦ false
  | some ws' ↦ matches_starts pcs ws'
]

unfoldable pub camel_acronym_match : Unicode → Text → Text → Bool
camel_acronym_match u name prefix =
    matches_starts (ascii_lowercase prefix) (word_starts u none name)

unfoldable pub match_score : Unicode → Text → Text → Option ℕ
match_score u name prefix =
    if is_empty prefix
    then some 0
    else if starts_with (ascii_lowercase prefix) (ascii_lowercase name)
    then some 0
    else if camel_acronym_match u name prefix
    then some 1
    else if contains_text (ascii_lowercase prefix) (ascii_lowercase name)
    then some 2
    else none
