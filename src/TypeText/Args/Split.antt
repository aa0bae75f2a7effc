-- ===== src/TypeText/Args/Split.antt =====
-- Splitting a generic argument list, and joining it again.
use kmp_lsp.Base.{
  ℕ, suc, ◌+◌, ◌-◌, ◌<◌, ◌≡◌, ◌∙◌, ◌≢◌, refl, sym, ap, true, Option, none, some, List, [], ◌∷◌,
  ◌++◌, append_assoc, append-nil, arith, inl, inr, Bool-cases, if◌then◌else◌, length, drop,
  length-append, take-length_append, All, ℤ, pos,
}
use kmp_lsp.Text.{Text, push_part, join, rfind_char, slice}
use kmp_lsp.Text.Laws.{find_char-append, rfind_char-append}
use kmp_lsp.TypeText.Args
use kmp_lsp.TypeText.Args.{
  depth_after, parts_at, split_from, split_top_level_commas, first_from, first_type_arg,
  type_args_inner,
}

abbrev pub comma : Text
comma = b',' ∷ []

split_from-cons : (d : ℤ) (s : Text) → (ps : List Text) × (split_from d s ≡ first_from d s ∷ ps)
split_from-cons d [] = ([], refl)
split_from-cons d (c ∷ s) = elim (Bool-cases (parts_at d c)) [
  | inl parts ↦ (split_from (depth_after d c) s, rw parts)
  | inr other ↦ let (ps, e) = split_from-cons (depth_after d c) s in (ps, rw (other, e))
]

-- The first type argument is the first part of the split list.
pub first_type_arg-split :
    (s : Text) → (ps : List Text) × (split_top_level_commas s ≡ first_type_arg s ∷ ps)
unfolding split_top_level_commas first_type_arg
first_type_arg-split s = split_from-cons (pos 0) s

join-split_from : (d : ℤ) (s : Text) → join comma (split_from d s) ≡ s
unfolding join
join-split_from d [] = refl
join-split_from d (c ∷ s) =
    let (ps, e) = split_from-cons (depth_after d c) s in
    let ih = join-split_from (depth_after d c) s in
    elim (Bool-cases (parts_at d c)) [
      | inl parts ↦ rw (parts, e) (join_comma d c s ps parts (rw e at ih))
      | inr other ↦ rw (other, e) (join_char c s (first_from (depth_after d c) s) ps (rw e at ih))
    ]
  where
    join_comma :
        (d : ℤ) (c : ℕ) (s : Text) (ps : List Text)
        → parts_at d c ≡ true
        → join comma (first_from (depth_after d c) s ∷ ps) ≡ s
        → join comma ([] ∷ first_from (depth_after d c) s ∷ ps) ≡ c ∷ s
    join_comma d c s ps parts h = ground arith

    join_char :
        (c : ℕ) (s p : Text) (ps : List Text)
        → join comma (p ∷ ps) ≡ s
        → join comma ((c ∷ p) ∷ ps) ≡ c ∷ s
    join_char c s p [] h = ap (λ z. c ∷ z) h
    join_char c s p (q ∷ ps) h = ap (λ z. c ∷ z) h

-- Splitting loses nothing: the parts, joined by commas, are the text, whatever its brackets.
join-split_top_level_commas : (s : Text) → join comma (split_top_level_commas s) ≡ s
unfolding split_top_level_commas
join-split_top_level_commas s = join-split_from (pos 0) s

-- The depth behind a text in which no comma parts.
abbrev pub arg_depth : ℤ → Text → Option ℤ
arg_depth d [] = some d
arg_depth d (c ∷ s) = if parts_at d c then none else arg_depth (depth_after d c) s

-- One argument: its brackets close, and its commas stand within them.
abbrev pub IsArg : Text → Type 0
IsArg a = arg_depth (pos 0) a ≡ some (pos 0)

abbrev prepend : Text → List Text → List Text
prepend a [] = a ∷ []
prepend a (p ∷ ps) = (a ++ p) ∷ ps

prepend_push : (c : ℕ) (a : Text) (ps : List Text) → push_part c (prepend a ps) ≡ prepend (c ∷ a) ps
prepend_push c a [] = refl
prepend_push c a (p ∷ ps) = refl

prepend_nil : (d : ℤ) (s : Text) → split_from d s ≡ prepend [] (split_from d s)
prepend_nil d s = let (ps, e) = split_from-cons d s in rw e

split_from-append :
    (d e : ℤ) (a s : Text)
    → arg_depth d a ≡ some e
    → split_from d (a ++ s) ≡ prepend a (split_from e s)
split_from-append d e [] s h = ground (arith, prepend_nil e s)
split_from-append d e (c ∷ a) s h =
    ground (arith, split_from-append (depth_after d c) e a s, prepend_push c a (split_from e s))

-- Arguments whose brackets close and whose commas stand within these, joined by commas, split into
-- these arguments, if there is one at least.
pub split_top_level_commas-join :
    (a : Text) (xs : List Text)
    → All IsArg (a ∷ xs)
    → split_top_level_commas (join comma (a ∷ xs)) ≡ a ∷ xs
unfolding split_top_level_commas join
split_top_level_commas-join a [] (h, hs) =
    ap (split_from (pos 0)) (sym (append-nil a))
    ∙ split_from-append (pos 0) (pos 0) a [] h
    ∙ ap (λ z. z ∷ []) (append-nil a)
split_top_level_commas-join a (b ∷ xs) (h, hs) =
    split_from-append (pos 0) (pos 0) a (b',' ∷ join comma (b ∷ xs)) h
    ∙ rw (append-nil a, split_top_level_commas-join b xs hs)

drop-length_cons : (base s : Text) (x n : ℕ) → n ≡ suc (length base) → drop n (base ++ x ∷ s) ≡ s
drop-length_cons [] s x n e = rw e
drop-length_cons (c ∷ base) s x n e = rw e (drop-length_cons base s x (suc (length base)) refl)

slice-append :
    (base inner tail : Text) (x j : ℕ)
    → j ≡ length base + 1 + length inner
    → slice (length base + 1) j (base ++ x ∷ (inner ++ tail)) ≡ inner
slice-append base inner tail x j e =
    let n : j - (length base + 1) ≡ length inner = omega arith in
    rw (n, drop-length_cons base (inner ++ tail) x (length base + 1) (omega arith))
      (take-length_append inner tail)

between_brackets-slice :
    (s : Text) (i j : ℕ) (inner : Text)
    → i < j
    → slice (i + 1) j s ≡ inner
    → Args.between_brackets s i j ≡ some inner
unfolding Args.between_brackets
between_brackets-slice s i j inner lt e = ground arith

-- What stands between the first `<` and the last `>` is found, whatever brackets it holds itself.
pub type_args_inner-append :
    (base inner rest : Text)
    → All (λ c. b'<' ≢ c) base
    → All (λ c. b'>' ≢ c) rest
    → type_args_inner (base ++ b'<' ∷ (inner ++ b'>' ∷ rest)) ≡ some inner
unfolding type_args_inner
type_args_inner-append base inner rest hb hr =
    let whole = base ++ b'<' ∷ (inner ++ b'>' ∷ rest) in
    let left = base ++ b'<' ∷ inner in
    let closes : rfind_char b'>' whole ≡ some (length left) =
      ap (rfind_char b'>') (sym (append_assoc base (b'<' ∷ inner) (b'>' ∷ rest)))
      ∙ rfind_char-append b'>' left rest hr in
    rw (find_char-append b'<' base (inner ++ b'>' ∷ rest) hb, closes)
      (between_brackets-slice whole (length base) (length left) inner
        (omega (arith, length-append base (b'<' ∷ inner)))
        (slice-append base inner (b'>' ∷ rest) b'<' (length left)
          (omega (arith, length-append base (b'<' ∷ inner)))))
