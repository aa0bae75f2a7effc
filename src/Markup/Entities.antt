-- ===== src/Markup/Entities.antt =====
-- `decode_html_entities` of indexer/html_md.rs on escaped texts.
use kmp_lsp.Base.{
  ℕ, zero, suc, ◌≤◌, ◌<◌, ◌≡◌, ◌≢◌, refl, false, [], ◌∷◌, ◌++◌, arith, ◌==◌, if◌then◌else◌, length,
}
use kmp_lsp.Text.{Text, codes, contains_char, split_once}
use kmp_lsp.Markup.{decode_loop, decode_html_entities, decode_entity}

-- What a writer of Javadoc puts for a character.
abbrev pub escape_char : ℕ → Text → Text
escape_char c s =
    if c == b'&'
    then codes "&amp;" ++ s
    else if c == b'<'
    then codes "&lt;" ++ s
    else if c == b'>'
    then codes "&gt;" ++ s
    else if c == b'"'
    then codes "&quot;" ++ s
    else c ∷ s

abbrev pub escape_html : Text → Text
escape_html [] = []
escape_html (c ∷ s) = escape_char c (escape_html s)

decode_plain :
    (f c : ℕ) (s : Text) → b'&' ≢ c → decode_loop (suc f) (c ∷ s) ≡ c ∷ decode_loop (suc f) s
unfolding decode_loop split_once
decode_plain f c s h = ground arith

decode_named :
    (f : ℕ) (s : Text)
    → (decode_loop (suc f) (codes "&amp;" ++ s) ≡ b'&' ∷ decode_loop f s)
      × (decode_loop (suc f) (codes "&lt;" ++ s) ≡ b'<' ∷ decode_loop f s)
      × (decode_loop (suc f) (codes "&gt;" ++ s) ≡ b'>' ∷ decode_loop f s)
      × (decode_loop (suc f) (codes "&quot;" ++ s) ≡ b'"' ∷ decode_loop f s)
unfolding decode_loop split_once decode_entity
decode_named f s = (refl, refl, refl, refl)

decode_escaped : (f : ℕ) (s : Text) → length s < f → decode_loop f (escape_html s) ≡ s
decode_escaped zero s h = absurd (omega arith)
decode_escaped (suc f) [] h = unfold decode_loop split_once in refl
decode_escaped (suc f) (c ∷ s) h = ground (
  arith,
  decode_named f (escape_html s),
  decode_plain f c (escape_html s),
  decode_escaped f s,
  decode_escaped (suc f) s,
)

decode_no_amp : (f : ℕ) (s : Text) → contains_char b'&' s ≡ false → decode_loop (suc f) s ≡ s
decode_no_amp f [] h = unfold decode_loop split_once in refl
decode_no_amp f (c ∷ s) h = ground (arith, decode_plain f c s, decode_no_amp f s)

length-escape_html : (s : Text) → length s ≤ length (escape_html s)
length-escape_html [] = omega arith
length-escape_html (c ∷ s) = ground (arith, length-escape_html s)

-- Escaping `&`, `<`, `>` and the double quote, as a writer of HTML does, and decoding gives every
-- text back.
pub decode_html_entities-escape_html : (s : Text) → decode_html_entities (escape_html s) ≡ s
unfolding decode_html_entities
decode_html_entities-escape_html s = ground (
  arith,
  length-escape_html s,
  decode_escaped (suc (length (escape_html s))) s,
  decode_no_amp (length (escape_html s)) (escape_html s),
)
