-- ===== src/TypeText/Args/Lengths.antt =====
-- The lengths of the parts of a type text (detail_text.rs, indexer/infer/type_subst.rs).
use kmp_lsp.Base.{
  ℕ, suc, ◌+◌, ◌-◌, ◌≤◌, ◌<◌, ◌≡◌, refl, Option, none, some, ◌⊎◌, List, [], ◌∷◌, arith, inl, inr,
  Bool-cases, Option-cases, All, length, drop, length-take, length-drop, ℤ, pos, or_else,
}
use kmp_lsp.Text
use kmp_lsp.Text.{
  Text, codes, push_part, find_char, rfind_char, slice, trim, trim_start, trim_end, strip_prefix,
}
use kmp_lsp.Text.Laws.{length-drop_while, length-drop_end_while}
use kmp_lsp.TypeText.Names.{strip_nullable, strip_variance, unprojected}
use kmp_lsp.TypeText.Args
use kmp_lsp.TypeText.Args.{
  split_top_level_commas, split_from, depth_after, parts_at, type_args_inner,
}

lengths_mono :
    (n k : ℕ) (ps : List Text) → n ≤ k → All (λ p. length p ≤ n) ps → All (λ p. length p ≤ k) ps
lengths_mono n k [] le h = tt
lengths_mono n k (p ∷ ps) le (h, hs) = (omega arith, lengths_mono n k ps le hs)

push_part-lengths :
    (c n : ℕ) (ps : List Text)
    → All (λ p. length p ≤ n) ps
    → All (λ p. length p ≤ suc n) (push_part c ps)
push_part-lengths c n [] h = (omega arith, tt)
push_part-lengths c n (p ∷ ps) (h, hs) = (omega arith, lengths_mono n (suc n) ps (omega arith) hs)

split_from-lengths : (d : ℤ) (s : Text) → All (λ p. length p ≤ length s) (split_from d s)
split_from-lengths d [] = (omega arith, tt)
split_from-lengths d (c ∷ s) =
    let ih = split_from-lengths (depth_after d c) s in
    elim (Bool-cases (parts_at d c)) [
      | inl parts ↦
          rw parts (omega arith, lengths_mono (length s) (suc (length s)) _ (omega arith) ih)
      | inr other ↦ rw other (push_part-lengths c (length s) _ ih)
    ]

pub split_top_level_commas-lengths :
    (s : Text) → All (λ p. length p ≤ length s) (split_top_level_commas s)
unfolding split_top_level_commas
split_top_level_commas-lengths s = split_from-lengths (pos 0) s

between-length :
    (s inner : Text) (i j : ℕ)
    → 0 < length s
    → Args.between_brackets s i j ≡ some inner
    → length inner < length s
unfolding Args.between_brackets
between-length s inner i j h e =
    let n = length-take (j - (i + 1)) (drop (i + 1) s) in
    let m = length-drop (i + 1) s in ground (arith, n, m)

pub type_args_inner-length :
    (s inner : Text) → type_args_inner s ≡ some inner → length inner < length s
unfolding type_args_inner
type_args_inner-length [] inner e = absurd (cc)
type_args_inner-length (c ∷ s) inner e = elim (Option-cases (find_char b'<' (c ∷ s))) [
  | inl none_open ↦ absurd (ground arith)
  | inr (i, opens) ↦ elim (Option-cases (rfind_char b'>' (c ∷ s))) [
    | inl none_close ↦ absurd (ground arith)
    | inr (j, closes) ↦ between-length (c ∷ s) inner i j (omega arith) (ground arith)
  ]
]

pub length-trim_start : (s : Text) → length (trim_start s) ≤ length s
unfolding trim_start
length-trim_start s = length-drop_while _ s

pub length-trim : (s : Text) → length (trim s) ≤ length s
unfolding trim
length-trim s =
    omega (arith, length-drop_end_while Text.is_whitespace (trim_start s), length-trim_start s)

pub length-strip_nullable : (s : Text) → length (strip_nullable s) ≤ length s
unfolding strip_nullable
length-strip_nullable s = length-drop_end_while _ s

length-strip_prefix : (p s r : Text) → strip_prefix p s ≡ some r → length r ≤ length s
length-strip_prefix [] s r e = ground arith
length-strip_prefix (c ∷ p) [] r e = absurd (cc)
length-strip_prefix (c ∷ p) (d ∷ s) r e = ground (arith, length-strip_prefix p s r)

or_else-some {ℓ} :
    {A : Type ℓ} (o p : Option A) {r : A} → or_else o p ≡ some r → (o ≡ some r) ⊎ (p ≡ some r)
or_else-some none p e = inr e
or_else-some (some a) p e = inl e

length-unprojected :
    (t : Text) (o : Option Text)
    → ((r : Text) → o ≡ some r → length r ≤ length t)
    → length (unprojected t o) ≤ length t
length-unprojected t none h = omega arith
length-unprojected t (some r) h = omega (arith, length-trim_start r, h r refl)

pub length-strip_variance : (s : Text) → length (strip_variance s) ≤ length s
unfolding strip_variance
length-strip_variance s =
    let t = trim_start s in
    omega (
      arith,
      length-trim_start s,
      length-unprojected t (or_else (strip_prefix (codes "out ") t) (strip_prefix (codes "in ") t))
          (λ r e.
            elim (or_else-some (strip_prefix (codes "out ") t) (strip_prefix (codes "in ") t) e) [
              | inl q ↦ length-strip_prefix (codes "out ") t r q
              | inr q ↦ length-strip_prefix (codes "in ") t r q
            ]),
    )

pub length-bare_type : (s : Text) → length (strip_nullable (strip_variance (trim s))) ≤ length s
length-bare_type s = omega (
  arith,
  length-strip_nullable (strip_variance (trim s)),
  length-strip_variance (trim s),
  length-trim s,
)

-- What holds of every shorter text holds of the parts.
pub All-shorter :
    (P : Text → Type 0) (n : ℕ)
    → ((d : Text) → length d ≤ n → P d)
    → (ds : List Text) → All (λ d. length d ≤ n) ds
    → All P ds
All-shorter P n h [] k = tt
All-shorter P n h (d ∷ ds) (k, ks) = (h d k, All-shorter P n h ds ks)
