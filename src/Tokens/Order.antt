-- ===== src/Tokens/Order.antt =====
-- The tokens of semantic_tokens/mod.rs stand in the order of their positions, each position once.
use kmp_lsp.Base.{
  ◌^◌, ◌≡◌, refl, Bool, true, false, ◌&&◌, ◌||◌, Option, none, some, List, [], ◌∷◌, ◌++◌, ltb, ◌==◌,
  keep, all, arith, Bool-cases, inl, inr,
}
use kmp_lsp.Tokens.{
  RawToken, Range, key_le, same_key, insert, sort_by_key, dedup_after, dedup_by_key, final_tokens,
  retain, in_range,
}

-- The tokens stand pairwise in the relation, and all are of `u32`.
abbrev pub pairwise : (RawToken → RawToken → Bool) → List RawToken → Bool
pairwise r [] = true
pairwise r (t ∷ ts) = all (r t) ts && pairwise r ts

abbrev pub key_lt : RawToken → RawToken → Bool
key_lt t u = ltb t.line u.line || (t.line == u.line && ltb t.col u.col)

abbrev pub fits : RawToken → Bool
fits t = ltb t.line (2 ^ 32) && ltb t.col (2 ^ 32)

key_le_trans : (t u v : RawToken) → key_le t u ≡ true → key_le u v ≡ true → key_le t v ≡ true
unfolding key_le
key_le_trans t u v h k = ground arith

key_le_total : (t u : RawToken) → key_le t u ≡ false → key_le u t ≡ true
unfolding key_le
key_le_total t u h = ground arith

pub all_weaken :
    (p q : RawToken → Bool) (f : (t : RawToken) → p t ≡ true → q t ≡ true) (ts : List RawToken)
    → all p ts ≡ true
    → all q ts ≡ true
all_weaken p q f [] h = refl
all_weaken p q f (t ∷ ts) h = ground (arith, f t, all_weaken p q f ts)

all-insert :
    (p : RawToken → Bool) (t : RawToken) (ts : List RawToken)
    → p t ≡ true
    → all p ts ≡ true
    → all p (insert t ts) ≡ true
unfolding insert
all-insert p t [] h k = ground arith
all-insert p t (u ∷ us) h k = ground (arith, all-insert p t us h)

insert-pairwise :
    (t : RawToken) (ts : List RawToken)
    → pairwise key_le ts ≡ true
    → pairwise key_le (insert t ts) ≡ true
unfolding insert
insert-pairwise t [] h = refl
insert-pairwise t (u ∷ us) h = elim (Bool-cases (key_le t u)) [
  | inl e ↦ ground (arith, all_weaken (key_le u) (key_le t) (λ v. key_le_trans t u v e) us)
  | inr e ↦ ground (arith, insert-pairwise t us, all-insert (key_le u) t us (key_le_total t u e))
]

sort-pairwise : (ts : List RawToken) → pairwise key_le (sort_by_key ts) ≡ true
unfolding sort_by_key
sort-pairwise [] = refl
sort-pairwise (t ∷ ts) = insert-pairwise t (sort_by_key ts) (sort-pairwise ts)

all-sort :
    (p : RawToken → Bool) (ts : List RawToken) → all p ts ≡ true → all p (sort_by_key ts) ≡ true
unfolding sort_by_key
all-sort p [] h = refl
all-sort p (t ∷ ts) h = ground (arith, all-insert p t (sort_by_key ts), all-sort p ts)

all-dedup_after :
    (p : RawToken → Bool) (t : RawToken) (ts : List RawToken)
    → all p ts ≡ true
    → all p (dedup_after t ts) ≡ true
unfolding dedup_after
all-dedup_after p t [] h = refl
all-dedup_after p t (u ∷ us) h = ground (arith, all-dedup_after p t us, all-dedup_after p u us)

all-keep : (p q : RawToken → Bool) (ts : List RawToken) → all p ts ≡ true → all p (keep q ts) ≡ true
all-keep p q [] h = refl
all-keep p q (t ∷ ts) h = ground (arith, all-keep p q ts)

keep-pairwise :
    (r : RawToken → RawToken → Bool) (q : RawToken → Bool) (ts : List RawToken)
    → pairwise r ts ≡ true
    → pairwise r (keep q ts) ≡ true
keep-pairwise r q [] h = refl
keep-pairwise r q (t ∷ ts) h = ground (arith, keep-pairwise r q ts, all-keep (r t) q ts)

key_le_lt :
    (t u v : RawToken)
    → key_le t u ≡ true
    → same_key t u ≡ false
    → key_le u v ≡ true
    → key_lt t v ≡ true
unfolding key_le same_key
key_le_lt t u v h n k = ground arith

lt_of_le : (t u : RawToken) → key_le t u ≡ true → same_key t u ≡ false → key_lt t u ≡ true
unfolding key_le same_key
lt_of_le t u h n = ground arith

pub lt→le : (t u : RawToken) → key_lt t u ≡ true → key_le t u ≡ true
unfolding key_le
lt→le t u h = ground arith

dedup_after-pairwise :
    (t : RawToken) (ts : List RawToken)
    → pairwise key_le (t ∷ ts) ≡ true
    → pairwise key_lt (t ∷ dedup_after t ts) ≡ true
unfolding dedup_after
dedup_after-pairwise t [] h = refl
dedup_after-pairwise t (u ∷ us) h = elim (Bool-cases (same_key t u)) [
  | inl e ↦ rw e (dedup_after-pairwise t us (ground arith))
  | inr e ↦
      let first : key_le t u ≡ true = ground arith in
      let later : all (key_lt t) us ≡ true =
        all_weaken (key_le u) (key_lt t) (λ v. key_le_lt t u v first e) us (ground arith) in
      let rest : pairwise key_lt (u ∷ dedup_after u us) ≡ true =
        dedup_after-pairwise u us (ground arith) in
      ground (arith, lt_of_le t u first e, all-dedup_after (key_lt t) u us later, rest)
]

dedup-pairwise :
    (ts : List RawToken) → pairwise key_le ts ≡ true → pairwise key_lt (dedup_by_key ts) ≡ true
unfolding dedup_by_key
dedup-pairwise [] h = refl
dedup-pairwise (t ∷ ts) h = dedup_after-pairwise t ts h

-- Whatever the phases produce, and whatever the range, the positions of the tokens that are
-- encoded ascend strictly: no position comes twice.
pub retain-pairwise :
    (range : Option Range) (phase1 phase1b phase2 : List RawToken)
    → pairwise key_lt (retain range (final_tokens phase1 phase1b phase2)) ≡ true
unfolding retain final_tokens
retain-pairwise none a b c =
    dedup-pairwise (sort_by_key (a ++ b ++ c)) (sort-pairwise (a ++ b ++ c))
retain-pairwise (some r) a b c =
    keep-pairwise key_lt (in_range r) (dedup_by_key (sort_by_key (a ++ b ++ c)))
      (dedup-pairwise (sort_by_key (a ++ b ++ c)) (sort-pairwise (a ++ b ++ c)))

all-dedup :
    (p : RawToken → Bool) (ts : List RawToken) → all p ts ≡ true → all p (dedup_by_key ts) ≡ true
unfolding dedup_by_key
all-dedup p [] h = refl
all-dedup p (t ∷ ts) h = ground (arith, all-dedup_after p t ts)

pub retain-all :
    (p : RawToken → Bool) (range : Option Range) (phase1 phase1b phase2 : List RawToken)
    → all p (phase1 ++ phase1b ++ phase2) ≡ true
    → all p (retain range (final_tokens phase1 phase1b phase2)) ≡ true
unfolding retain final_tokens
retain-all p none a b c h = all-dedup p (sort_by_key (a ++ b ++ c)) (all-sort p (a ++ b ++ c) h)
retain-all p (some r) a b c h =
    all-keep p (in_range r) (dedup_by_key (sort_by_key (a ++ b ++ c)))
      (all-dedup p (sort_by_key (a ++ b ++ c)) (all-sort p (a ++ b ++ c) h))
