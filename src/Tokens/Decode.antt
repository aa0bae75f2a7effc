-- ===== src/Tokens/Decode.antt =====
-- A client that reads the tokens of semantic_tokens/mod.rs as the protocol says.
use kmp_lsp.Base.{
  ℕ, ◌+◌, ◌≡◌, refl, true, Option, List, [], ◌∷◌, ◌++◌, ◌==◌, if◌then◌else◌, all, arith,
}
use kmp_lsp.Tokens.{
  RawToken, SemanticToken, Range, key_le, encode_from, delta_encode, final_tokens, retain,
  collect_tokens, wrapping_sub,
}
use kmp_lsp.Tokens.Order.{pairwise, key_lt, fits, lt→le, all_weaken, retain-pairwise, retain-all}

-- Each position is relative to the one before, and the column is so on the same line only.
abbrev pub decode_from : ℕ → ℕ → List SemanticToken → List RawToken
decode_from line start [] = []
decode_from line start (s ∷ ss) =
    let col = if s.delta_line == 0 then start + s.delta_start else s.delta_start in
    record {
      line = line + s.delta_line;
      col = col;
      length = s.length;
      token_type = s.token_type;
      token_modifiers_bitset = s.token_modifiers_bitset;
    }
    ∷ decode_from (line + s.delta_line) col ss

line_back :
    (p t : RawToken)
    → fits p ≡ true
    → fits t ≡ true
    → key_le p t ≡ true
    → p.line + wrapping_sub t.line p.line ≡ t.line
unfolding key_le
line_back p t f g h = ground arith

col_back :
    (p t : RawToken)
    → fits p ≡ true
    → fits t ≡ true
    → key_le p t ≡ true
    → (if wrapping_sub t.line p.line == 0
        then p.col + (if wrapping_sub t.line p.line == 0 then wrapping_sub t.col p.col else t.col)
        else (if wrapping_sub t.line p.line == 0 then wrapping_sub t.col p.col else t.col))
      ≡ t.col
unfolding key_le
col_back p t f g h = ground arith

encode_from-decode_from :
    (p : RawToken) (ts : List RawToken)
    → fits p ≡ true
    → all fits ts ≡ true
    → all (key_le p) ts ≡ true
    → pairwise key_lt ts ≡ true
    → decode_from p.line p.col (encode_from p.line p.col ts) ≡ ts
unfolding encode_from
encode_from-decode_from p [] f g h s = refl
encode_from-decode_from p (t ∷ ts) f g h s =
    let ft : fits t ≡ true = ground arith in
    let le : key_le p t ≡ true = ground arith in
    let rest : decode_from t.line t.col (encode_from t.line t.col ts) ≡ ts =
      encode_from-decode_from t ts ft (ground arith)
        (all_weaken (key_lt t) (key_le t) (lt→le t) ts (ground arith)) (ground arith) in
    rw (line_back p t f ft le, col_back p t f ft le, rest) refl

abbrev origin : RawToken
origin = record { line = 0; col = 0; length = 0; token_type = 0; token_modifiers_bitset = 0 }

-- While the positions that the phases produce are below 2^32, a client that decodes the answer
-- reads the tokens at their positions, in order, with their lengths, types and modifiers.
pub collect_tokens-decode_from :
    (range : Option Range) (phase1 phase1b phase2 : List RawToken)
    → all fits (phase1 ++ phase1b ++ phase2) ≡ true
    → decode_from 0 0 (collect_tokens range phase1 phase1b phase2)
      ≡ retain range (final_tokens phase1 phase1b phase2)
unfolding collect_tokens delta_encode key_le
collect_tokens-decode_from range a b c h =
    let origin_first : (t : RawToken) → fits t ≡ true → key_le origin t ≡ true =
      λ t f. ground arith in
    let bounded = retain-all fits range a b c h in
    let tokens = retain range (final_tokens a b c) in
    encode_from-decode_from origin tokens (ground arith) bounded
      (all_weaken fits (key_le origin) origin_first tokens bounded) (retain-pairwise range a b c)
