-- ===== src/Signature/Chosen.antt =====
-- Which candidate a call chooses: best_candidate_index of indexer/infer/sig.rs.
use kmp_lsp.Base.{
  ℕ, zero, suc, ◌+◌, ◌<◌, ◌≤◌, ◌≡◌, ◌≢◌, refl, ap, ◌∙◌, Bool, true, false, ◌&&◌, Option, none, some,
  List, [], ◌∷◌, ◌⊎◌, map, arith, inl, inr, Bool-cases, if◌then◌else◌, ◌==◌, ==_iff, get_elem?,
  or_else, ◌>>=◌,
}
use kmp_lsp.Text.{Unicode}
use kmp_lsp.Signature.{
  Candidate, CallShape, same, score, position, first_wanted, wanted, best_candidate_index,
}

some_eq : (x y : Bool × Bool) → some x ≡ some y → x ≡ y
some_eq x y h = cc

-- A lambda that is taken where it is written counts more than a fitting arity.
abbrev pub rank : Bool × Bool → ℕ
rank (arity, lambda) = (if lambda then 2 else 0) + (if arity then 1 else 0)

-- The earliest of those with the highest rank.
abbrev pub Best : List (Bool × Bool) → ℕ → Type 0
Best scored i =
    (s : Bool × Bool) × (get_elem? scored i ≡ some s)
    × ((j : ℕ) (t : Bool × Bool)
        → get_elem? scored j ≡ some t
        → (rank t < rank s) ⊎ ((rank t ≡ rank s) × (i ≤ j)))

-- What a search for one score finds: its first place, or that it is nowhere.
abbrev Found : Bool × Bool → List (Bool × Bool) → Option ℕ → Type 0
Found w scored none = (j : ℕ) (t : Bool × Bool) → get_elem? scored j ≡ some t → rank t ≢ rank w
Found w scored (some i) =
    (get_elem? scored i ≡ some w)
    × ((j : ℕ) (t : Bool × Bool) → get_elem? scored j ≡ some t → rank t ≡ rank w → i ≤ j)

same_score : (x w : Bool × Bool) → (same x.0 w.0 && same x.1 w.1) ≡ true → x ≡ w
same_score (a, b) (c, d) h = ground arith

other_score : (x w : Bool × Bool) → (same x.0 w.0 && same x.1 w.1) ≡ false → rank x ≢ rank w
other_score (a, b) (c, d) h = ground arith

abbrev behind : Option ℕ → Option ℕ
behind o = o >>= λ i. some (suc i)

Found-cons :
    (w x : Bool × Bool) (xs : List (Bool × Bool)) (o : Option ℕ)
    → rank x ≢ rank w
    → Found w xs o
    → Found w (x ∷ xs) (behind o)
Found-cons w x xs none n f = at
  where
    at : (j : ℕ) (t : Bool × Bool) → get_elem? (x ∷ xs) j ≡ some t → rank t ≢ rank w
    at zero t h = λ e. n (ap rank (some_eq x t h) ∙ e)
    at (suc j) t h = f j t h
Found-cons w x xs (some i) n (g, f) = (g, at)
  where
    at : (j : ℕ) (t : Bool × Bool) → get_elem? (x ∷ xs) j ≡ some t → rank t ≡ rank w → suc i ≤ j
    at zero t h e = absurd (n (ap rank (some_eq x t h) ∙ e))
    at (suc j) t h e = let le = f j t h e in omega (arith, le)

position-Found :
    (w : Bool × Bool) (scored : List (Bool × Bool)) → Found w scored (position w scored)
position-Found w [] = λ j t h. cc
position-Found w (x ∷ xs) = elim (Bool-cases (same x.0 w.0 && same x.1 w.1)) [
  | inl e ↦ rw e (ap some (same_score x w e), λ j t h k. omega arith)
  | inr e ↦ rw e (Found-cons w x xs (position w xs) (other_score x w e) (position-Found w xs))
]

abbrev AtMost : ℕ → List (Bool × Bool) → Type 0
AtMost n scored = (j : ℕ) (t : Bool × Bool) → get_elem? scored j ≡ some t → rank t ≤ n

abbrev Chosen : List (Bool × Bool) → Option ℕ → Type 0
Chosen scored o = (i : ℕ) × (o ≡ some i) × Best scored i

below_or_equal : (a b : ℕ) → a ≤ b → (a < b) ⊎ (a ≡ b)
below_or_equal a b h = elim (Bool-cases (a == b)) [
  | inl e ↦ inr ((==_iff a b).0 e)
  | inr e ↦ inl (ground (arith, e, h))
]

Found-Best :
    (w : Bool × Bool) (scored : List (Bool × Bool)) (i : ℕ)
    → Found w scored (some i)
    → AtMost (rank w) scored
    → Best scored i
Found-Best w scored i (g, f) most = (
  w,
  g,
  λ j t h. elim (below_or_equal (rank t) (rank w) (most j t h)) [
    | inl less ↦ inl less
    | inr same_rank ↦ inr (same_rank, f j t h same_rank)
  ],
)

-- One round: the score is found, or no candidate has more than the next lower rank.
or_else-Chosen :
    (w : Bool × Bool) (n : ℕ) (scored : List (Bool × Bool)) (rest : Option ℕ)
    → rank w ≡ suc n
    → AtMost (rank w) scored
    → (AtMost n scored → Chosen scored rest)
    → Chosen scored (or_else (position w scored) rest)
or_else-Chosen w n scored rest e most k = under (position w scored) (position-Found w scored)
  where
    under : (o : Option ℕ) → Found w scored o → Chosen scored (or_else o rest)
    under (some i) f = (i, refl, Found-Best w scored i f most)
    under none f = k (λ j t h. let le = most j t h in let ne = f j t h in omega (arith, e, le, ne))

rank_le : (t : Bool × Bool) → rank t ≤ 3
rank_le (a, b) = ground arith

first_of_equals : (s : Bool × Bool) (ss : List (Bool × Bool)) → AtMost 0 (s ∷ ss) → Best (s ∷ ss) 0
first_of_equals s ss zero_ = (s, refl, λ j t h. inr (equal j t h, omega arith))
  where
    equal : (j : ℕ) (t : Bool × Bool) → get_elem? (s ∷ ss) j ≡ some t → rank t ≡ rank s
    equal j t h =
        let a : rank t ≤ 0 = zero_ j t h in
        let b : rank s ≤ 0 = zero_ 0 s refl in omega (arith, a, b)

-- The scores that are looked for have the ranks 3, 2 and 1, in this order.
first_wanted-Chosen :
    (s : Bool × Bool) (ss : List (Bool × Bool)) → Chosen (s ∷ ss) (first_wanted wanted (s ∷ ss))
first_wanted-Chosen s ss =
    or_else-Chosen (true, true) 2 (s ∷ ss) _ refl (λ j t h. rank_le t)
      (λ two.
        or_else-Chosen (false, true) 1 (s ∷ ss) _ refl two
          (λ one.
            or_else-Chosen (true, false) 0 (s ∷ ss) (some 0) refl one
              (λ zero_. (0, refl, first_of_equals s ss zero_))))

-- Where there is a candidate, one is chosen: the earliest of those whose score has the highest
-- rank, where a lambda that is taken just where the call writes one counts more than an arity that
-- admits the arguments. Where there is none, none is.
pub best_candidate_index-Best :
    (u : Unicode) (shape : CallShape)
    → ((c : Candidate) (cs : List Candidate)
        → (i : ℕ) × (best_candidate_index u (c ∷ cs) shape ≡ some i)
          × Best (map (score u shape) (c ∷ cs)) i)
      × (best_candidate_index u [] shape ≡ none)
unfolding best_candidate_index
best_candidate_index-Best u shape =
    (λ c cs. first_wanted-Chosen (score u shape c) (map (score u shape) cs), refl)
