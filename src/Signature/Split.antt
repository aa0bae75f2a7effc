-- ===== src/Signature/Split.antt =====
-- Splitting a parameter list, and joining it again: split_params_at_depth_zero of
-- indexer/infer/sig.rs.
use kmp_lsp.Base.{ℕ, ◌≡◌, refl, ap, ◌∙◌, true, List, [], ◌∷◌, arith, inl, inr, Bool-cases, ℤ, pos}
use kmp_lsp.Text.{Text, push_part, join}
use kmp_lsp.Signature.{depth_behind, parts_params, split_params_from, split_params_at_depth_zero}

abbrev comma : Text
comma = b',' ∷ []

join-push_part :
    (c : ℕ) (p : Text) (ps : List Text)
    → join comma (push_part c (p ∷ ps)) ≡ c ∷ join comma (p ∷ ps)
unfolding join
join-push_part c p [] = refl
join-push_part c p (q ∷ ps) = refl

-- There is a first part, and the parts give the text back.
join-split_from :
    (d : ℤ) (prev : ℕ) (s : Text)
    → (p : Text) × (ps : List Text) × (split_params_from d prev s ≡ p ∷ ps)
      × (join comma (p ∷ ps) ≡ s)
unfolding join
join-split_from d prev [] = ([], [], refl, refl)
join-split_from d prev (c ∷ s) =
    let (p, ps, e, j) = join-split_from (depth_behind d prev c) c s in
    elim (Bool-cases (parts_params d c)) [
      | inl parts ↦ ([], p ∷ ps, rw (parts, e) refl, rw j (ap (λ x. x ∷ s) (is_comma d c parts)))
      | inr other ↦ (c ∷ p, ps, rw (other, e) refl, join-push_part c p ps ∙ ap (λ x. c ∷ x) j)
    ]
  where
    is_comma : (d : ℤ) (c : ℕ) → parts_params d c ≡ true → b',' ≡ c
    is_comma d c h = ground arith

-- The split of a parameter list loses nothing: its parts, joined by commas, are the text, whatever
-- its brackets, arrows and trailing commas.
pub split_params-join : (text : Text) → join (b',' ∷ []) (split_params_at_depth_zero text) ≡ text
unfolding split_params_at_depth_zero
split_params-join text = let (p, ps, e, j) = join-split_from (pos 0) 0 text in ap (join comma) e ∙ j
