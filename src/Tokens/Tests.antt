-- ===== src/Tokens/Tests.antt =====
-- Runs of the tokens' order, range and encoding.
use kmp_lsp.Base.{◌≡◌, refl, Option, some, List, [], ◌∷◌, ◌++◌}
use kmp_lsp.Tokens.{
  RawToken, Range, key_le, same_key, insert, sort_by_key, dedup_after, dedup_by_key, final_tokens,
  retain, encode_from, delta_encode, collect_tokens,
}
use kmp_lsp.Tokens.Decode.{decode_from, collect_tokens-decode_from}
use kmp_lsp.Tokens.First.{first_at, first_at-final_tokens}
use Prim.Native.Nat.{ℕ}

abbrev token : ℕ → ℕ → ℕ → ℕ → RawToken
token line col length token_type = record {
  line = line;
  col = col;
  length = length;
  token_type = token_type;
  token_modifiers_bitset = 0;
}

abbrev declared : List RawToken
declared = token 2 4 3 1 ∷ token 0 6 5 2 ∷ []

abbrev parameters : List RawToken
parameters = token 0 14 2 7 ∷ []

abbrev references : List RawToken
references = token 2 4 3 9 ∷ token 5 1 2 8 ∷ []

abbrev shown : Option Range
shown = some (record {
  start = record { line = 0; character = 0 };
  end = record { line = 2; character = 7 };
})

encoded :
    collect_tokens shown declared parameters references
    ≡ record {
      delta_line = 0;
      delta_start = 6;
      length = 5;
      token_type = 2;
      token_modifiers_bitset = 0;
    }
      ∷ record {
        delta_line = 0;
        delta_start = 8;
        length = 2;
        token_type = 7;
        token_modifiers_bitset = 0;
      }
      ∷ record {
        delta_line = 2;
        delta_start = 4;
        length = 3;
        token_type = 1;
        token_modifiers_bitset = 0;
      }
      ∷ []
unfolding collect_tokens delta_encode encode_from retain final_tokens dedup_by_key dedup_after
    sort_by_key insert same_key key_le
encoded = refl

collect_tokens-decode_from_example :
    decode_from 0 0 (collect_tokens shown declared parameters references)
    ≡ retain shown (final_tokens declared parameters references)
collect_tokens-decode_from_example =
    collect_tokens-decode_from shown declared parameters references refl

first_at-final_tokens_example :
    first_at (token 2 4 0 0) (final_tokens declared parameters references)
    ≡ first_at (token 2 4 0 0) (declared ++ parameters ++ references)
first_at-final_tokens_example = first_at-final_tokens (token 2 4 0 0) declared parameters references
