-- ===== src/Tokens.antt =====
-- Semantic tokens: the order, the range and the encoding of the answer in semantic_tokens/mod.rs.
mod Tests
pub mod Order
pub mod First
pub mod Decode
use kmp_lsp.Base.{
  ℕ, ◌+◌, ◌-◌, ◌%◌, ◌^◌, Bool, true, false, ◌&&◌, ◌||◌, Option, none, some, List, [], ◌∷◌, ◌++◌,
  ltb, leb, ◌==◌, if◌then◌else◌, keep,
}

pub record RawToken : Type 0 where
  pub line : ℕ
  pub col : ℕ
  pub length : ℕ
  pub token_type : ℕ
  pub token_modifiers_bitset : ℕ

pub record SemanticToken : Type 0 where
  pub delta_line : ℕ
  pub delta_start : ℕ
  pub length : ℕ
  pub token_type : ℕ
  pub token_modifiers_bitset : ℕ

pub record Position : Type 0 where
  pub line : ℕ
  pub character : ℕ

pub record Range : Type 0 where
  pub start : Position
  pub end : Position

-- The order of the keys `(line, col)`, and their equality.
unfoldable pub key_le : RawToken → RawToken → Bool
key_le t u = ltb t.line u.line || (t.line == u.line && leb t.col u.col)

unfoldable pub same_key : RawToken → RawToken → Bool
same_key t u = t.line == u.line && t.col == u.col

-- `sort_by_key` is stable: a token stays before the later ones with its key.
unfoldable pub insert : RawToken → List RawToken → List RawToken
insert t [] = t ∷ []
insert t (u ∷ us) = let rest = insert t us in if key_le t u then t ∷ u ∷ us else u ∷ rest

unfoldable pub sort_by_key : List RawToken → List RawToken
sort_by_key [] = []
sort_by_key (t ∷ ts) = insert t (sort_by_key ts)

-- `dedup_by_key` keeps the first token of a run with one key.
unfoldable pub dedup_after : RawToken → List RawToken → List RawToken
dedup_after t [] = []
dedup_after t (u ∷ us) =
    let dropped = dedup_after t us in
    let kept = dedup_after u us in if same_key t u then dropped else u ∷ kept

unfoldable pub dedup_by_key : List RawToken → List RawToken
dedup_by_key [] = []
dedup_by_key (t ∷ ts) = t ∷ dedup_after t ts

-- The three phases in their order, the first token winning where two share a position.
unfoldable pub final_tokens : List RawToken → List RawToken → List RawToken → List RawToken
final_tokens phase1 phase1b phase2 = dedup_by_key (sort_by_key (phase1 ++ phase1b ++ phase2))

-- The sum of two `u32`, which wraps.
abbrev pub in_range : Range → RawToken → Bool
in_range r t =
    leb r.start.line t.line
    && leb t.line r.end.line
    && (ltb r.start.line t.line || leb r.start.character t.col)
    && (ltb t.line r.end.line || leb ((t.col + t.length) % 2 ^ 32) r.end.character)

unfoldable pub retain : Option Range → List RawToken → List RawToken
retain none ts = ts
retain (some r) ts = keep (in_range r) ts

-- The difference of two `u32`, which wraps.
abbrev pub wrapping_sub : ℕ → ℕ → ℕ
wrapping_sub a b = (a + (2 ^ 32 - b)) % 2 ^ 32

unfoldable pub encode_from : ℕ → ℕ → List RawToken → List SemanticToken
encode_from prev_line prev_start [] = []
encode_from prev_line prev_start (tok ∷ ts) =
    let delta_line = wrapping_sub tok.line prev_line in
    let delta_start = if delta_line == 0 then wrapping_sub tok.col prev_start else tok.col in
    record {
      delta_line = delta_line;
      delta_start = delta_start;
      length = tok.length;
      token_type = tok.token_type;
      token_modifiers_bitset = tok.token_modifiers_bitset;
    }
    ∷ encode_from tok.line tok.col ts

unfoldable pub delta_encode : List RawToken → List SemanticToken
delta_encode sorted = encode_from 0 0 sorted

-- The walks of the tree and of the references give the three phases.
unfoldable pub collect_tokens :
    Option Range → List RawToken → List RawToken → List RawToken → List SemanticToken
collect_tokens range phase1 phase1b phase2 =
    delta_encode (retain range (final_tokens phase1 phase1b phase2))
