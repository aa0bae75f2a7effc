-- ===== src/Completion/Labels.antt =====
-- One item for a label: resolver/complete.rs.
use kmp_lsp.Base.{
  ◌≡◌, refl, ◌∙◌, Bool, true, false, not, ◌&&◌, ◌||◌, List, [], ◌∷◌, arith, inl, inr, Bool-cases,
  find, all,
}
use kmp_lsp.Text.{Text, text_eq, contains}
use kmp_lsp.Text.Laws.{text_eq_iff, text_eq_refl}
use kmp_lsp.Completion.Bare.{CompletionItem}
use kmp_lsp.Completion.Answer.{dedup_completion_labels, dedup_from}

abbrev has_label : Text → CompletionItem → Bool
has_label k item = text_eq k item.label

abbrev differs : CompletionItem → CompletionItem → Bool
differs a b = not (text_eq a.label b.label)

abbrev pub distinct_labels : List CompletionItem → Bool
distinct_labels [] = true
distinct_labels (a ∷ as_) = all (differs a) as_ && distinct_labels as_

-- No item whose label was seen is left.
dedup_from-unseen :
    (seen : List Text) (a : CompletionItem) (items : List CompletionItem)
    → contains seen a.label ≡ true
    → all (differs a) (dedup_from seen items) ≡ true
unfolding dedup_from
dedup_from-unseen seen a [] h = refl
dedup_from-unseen seen a (i ∷ items) h = elim (Bool-cases (contains seen i.label)) [
  | inl e ↦ rw e (dedup_from-unseen seen a items h)
  | inr e ↦ rw e (
      unseen_here (dedup_from (i.label ∷ seen) items)
        (dedup_from-unseen (i.label ∷ seen) a items (or_right _ _ h)) (apart seen i a e h))
]
  where
    or_right : (x y : Bool) → y ≡ true → (x || y) ≡ true
    or_right x y k = ground arith

    unseen_here :
        (rest : List CompletionItem)
        → all (differs a) rest ≡ true
        → differs a i ≡ true
        → (differs a i && all (differs a) rest) ≡ true
    unseen_here rest k d = ground arith

    apart :
        (seen : List Text) (i a : CompletionItem)
        → contains seen i.label ≡ false
        → contains seen a.label ≡ true
        → differs a i ≡ true
    apart seen i a e k = elim (Bool-cases (text_eq a.label i.label)) [
      | inr n ↦ rw n refl
      | inl s ↦
          let same : a.label ≡ i.label = (text_eq_iff a.label i.label).0 s in
          let k' : contains seen i.label ≡ true = rw same at k in cc
    ]

dedup_from-distinct :
    (seen : List Text) (items : List CompletionItem)
    → distinct_labels (dedup_from seen items) ≡ true
unfolding dedup_from
dedup_from-distinct seen [] = refl
dedup_from-distinct seen (i ∷ items) = elim (Bool-cases (contains seen i.label)) [
  | inl e ↦ rw e (dedup_from-distinct seen items)
  | inr e ↦
      rw (e, dedup_from-unseen (i.label ∷ seen) i items (or_left _ _ (text_eq_refl i.label)))
        (dedup_from-distinct (i.label ∷ seen) items)
]
  where
    or_left : (x y : Bool) → x ≡ true → (x || y) ≡ true
    or_left x y k = ground arith

contains_same :
    (seen : List Text) (k l : Text) → text_eq k l ≡ true → contains seen l ≡ contains seen k
contains_same seen k l s = rw ((text_eq_iff k l).0 s) refl

-- The first item with a label, unless it was seen.
dedup_from-find :
    (seen : List Text) (k : Text) (items : List CompletionItem)
    → contains seen k ≡ false
    → find (has_label k) (dedup_from seen items) ≡ find (has_label k) items
unfolding dedup_from
dedup_from-find seen k [] n = refl
dedup_from-find seen k (i ∷ items) n = elim (Bool-cases (text_eq k i.label)) [
  | inl s ↦
      let unseen : contains seen i.label ≡ false = contains_same seen k i.label s ∙ n in
      rw (unseen, s) refl
  | inr s ↦ elim (Bool-cases (contains seen i.label)) [
    | inl e ↦ rw (e, s) (dedup_from-find seen k items n)
    | inr e ↦
        rw (e, s) (dedup_from-find (i.label ∷ seen) k items (or_false _ _ (flipped k i.label s) n))
  ]
]
  where
    or_false : (x y : Bool) → x ≡ false → y ≡ false → (x || y) ≡ false
    or_false x y a b = ground arith

    flipped : (k l : Text) → text_eq k l ≡ false → text_eq l k ≡ false
    flipped k l h = elim (Bool-cases (text_eq l k)) [
      | inr g ↦ g
      | inl g ↦
          let same : l ≡ k = (text_eq_iff l k).0 g in
          let again : text_eq k k ≡ false = rw same at h in cc (text_eq_refl k)
    ]

-- The answer has one item for each label, and for every label it has the first item that was
-- collected for it.
dedup_completion_labels_lem :
    (items : List CompletionItem)
    → (distinct_labels (dedup_completion_labels items) ≡ true)
      × ((k : Text)
          → find (λ i. text_eq k i.label) (dedup_completion_labels items)
            ≡ find (λ i. text_eq k i.label) items)
unfolding dedup_completion_labels
dedup_completion_labels_lem items =
    (dedup_from-distinct [] items, λ k. dedup_from-find [] k items refl)
