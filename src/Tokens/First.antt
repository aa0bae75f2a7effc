-- ===== src/Tokens/First.antt =====
-- Which of the tokens at one position the answer of semantic_tokens/mod.rs keeps.
use kmp_lsp.Base.{
  ◌≡◌, refl, true, false, Option, List, [], ◌∷◌, ◌++◌, arith, Bool-cases, inl, inr, find,
}
use kmp_lsp.Tokens.{
  RawToken, key_le, same_key, insert, sort_by_key, dedup_after, dedup_by_key, final_tokens,
}

-- The first token at the position of `k`.
abbrev pub first_at : RawToken → List RawToken → Option RawToken
first_at k ts = find (same_key k) ts

apart : (k t u : RawToken) → key_le t u ≡ false → same_key k u ≡ true → same_key k t ≡ false
unfolding key_le same_key
apart k t u h e = ground arith

apart_too : (k t u : RawToken) → same_key t u ≡ true → same_key k t ≡ false → same_key k u ≡ false
unfolding same_key
apart_too k t u h e = ground arith

first_at-insert :
    (k t : RawToken) (ts : List RawToken) → first_at k (insert t ts) ≡ first_at k (t ∷ ts)
unfolding insert
first_at-insert k t [] = refl
first_at-insert k t (u ∷ us) = elim (Bool-cases (key_le t u)) [
  | inl e ↦ rw e refl
  | inr e ↦ elim (Bool-cases (same_key k u)) [
    | inl s ↦ rw (e, s, apart k t u e s) refl
    | inr s ↦ rw (e, s) (first_at-insert k t us)
  ]
]

first_at-sort : (k : RawToken) (ts : List RawToken) → first_at k (sort_by_key ts) ≡ first_at k ts
unfolding sort_by_key
first_at-sort k [] = refl
first_at-sort k (t ∷ ts) = rw (first_at-insert k t (sort_by_key ts), first_at-sort k ts) refl

first_at-dedup_after :
    (k t : RawToken) (ts : List RawToken)
    → same_key k t ≡ false
    → first_at k (dedup_after t ts) ≡ first_at k ts
unfolding dedup_after
first_at-dedup_after k t [] n = refl
first_at-dedup_after k t (u ∷ us) n = elim (Bool-cases (same_key t u)) [
  | inl e ↦ rw (e, apart_too k t u e n) (first_at-dedup_after k t us n)
  | inr e ↦ elim (Bool-cases (same_key k u)) [
    | inl s ↦ rw (e, s) refl
    | inr s ↦ rw (e, s) (first_at-dedup_after k u us s)
  ]
]

first_at-dedup : (k : RawToken) (ts : List RawToken) → first_at k (dedup_by_key ts) ≡ first_at k ts
unfolding dedup_by_key
first_at-dedup k [] = refl
first_at-dedup k (t ∷ ts) = elim (Bool-cases (same_key k t)) [
  | inl s ↦ rw s refl
  | inr s ↦ rw s (first_at-dedup_after k t ts s)
]

-- At every position the final tokens have the first token that a phase produced there, the earlier
-- phase winning, and none where no phase produced one.
pub first_at-final_tokens :
    (k : RawToken) (phase1 phase1b phase2 : List RawToken)
    → first_at k (final_tokens phase1 phase1b phase2) ≡ first_at k (phase1 ++ phase1b ++ phase2)
unfolding final_tokens
first_at-final_tokens k a b c =
    rw (first_at-dedup k (sort_by_key (a ++ b ++ c)), first_at-sort k (a ++ b ++ c)) refl
