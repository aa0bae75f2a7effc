-- ===== src/Completion/Answer.antt =====
-- What becomes of the collected items in resolver/complete.rs: their order, the cap, and the
-- removal of those that cannot be reached and of doubles.
use kmp_lsp.Base.{
  ℕ, Bool, true, false, not, ◌&&◌, ◌||◌, Option, none, some, List, [], ◌∷◌, ◌==◌, if◌then◌else◌,
  ltb, length, take, sort_by, keep,
}
use kmp_lsp.Text.{Text, codes, starts_with, contains}
use kmp_lsp.Completion.Bare.{CompletionItem}

-- The order of strings is that of their UTF-8 bytes, which is that of their code points.
unfoldable pub text_le : Text → Text → Bool
text_le [] t = true
text_le (c ∷ s) [] = false
text_le (c ∷ s) (d ∷ t) = ltb c d || (c == d && text_le s t)

abbrev pub option_le : Option Text → Option Text → Bool
option_le none t = true
option_le (some s) none = false
option_le (some s) (some t) = text_le s t

unfoldable pub sort_text_le : CompletionItem → CompletionItem → Bool
sort_text_le a b = option_le a.sort_text b.sort_text

abbrev pub completion_cap : ℕ
completion_cap = 500

unfoldable pub finish : List CompletionItem → List CompletionItem × Bool
finish items =
    let sorted = sort_by sort_text_le items in
    (take completion_cap sorted, ltb completion_cap (length sorted))

-- For a receiver: the items that its private and protected tags hide, and one item for a label.
abbrev hidden : CompletionItem → Bool
hidden item = elim item.sort_text [
  | none ↦ false
  | some s ↦ starts_with (codes "prv:") s || starts_with (codes "prt:") s
]

unfoldable pub filter_inaccessible_completion_items : List CompletionItem → List CompletionItem
filter_inaccessible_completion_items items = keep (λ i. not (hidden i)) items

unfoldable pub dedup_from : List Text → List CompletionItem → List CompletionItem
dedup_from seen_labels [] = []
dedup_from seen_labels (item ∷ items) =
    let dropped = dedup_from seen_labels items in
    let kept = dedup_from (item.label ∷ seen_labels) items in
    if contains seen_labels item.label then dropped else item ∷ kept

unfoldable pub dedup_completion_labels : List CompletionItem → List CompletionItem
dedup_completion_labels items = dedup_from [] items
