-- ===== src/Markup/Ends.antt =====
-- The loop over the tags of indexer/html_md.rs and its fuel.
use kmp_lsp.Base.{
  ℕ, zero, suc, ◌≤◌, ◌<◌, ◌≡◌, refl, ap, Bool, Option, none, some, [], ◌∷◌, ◌++◌, arith, inl, inr,
  Option-cases, length,
}
use kmp_lsp.Text.{Text, split_once}
use kmp_lsp.Markup
use kmp_lsp.Markup.{html_loop, html_round, tag_round, html_to_markdown}

split_once-length : (c : ℕ) (s a b : Text) → split_once c s ≡ some (a, b) → length b < length s
unfolding split_once
split_once-length c [] a b e = absurd (cc)
split_once-length c (d ∷ s) a b e = elim (Option-cases (split_once c s)) [
  | inl n ↦ ground arith
  | inr ((a', b'), q) ↦ ground (arith, split_once-length c s a' b' q)
]

tag_round-eq :
    (f g : Bool → Text → Text) (in_pre : Bool) (behind : Text) (o : Option (Text × Text))
    → ((p : Bool) (r : Text) → length r ≤ length behind → f p r ≡ g p r)
    → ((a b : Text) → o ≡ some (a, b) → length b < length behind)
    → tag_round f in_pre behind o ≡ tag_round g in_pre behind o
unfolding tag_round
tag_round-eq f g in_pre behind none same lt = ap (λ z. b'<' ∷ z) (same in_pre behind (omega arith))
tag_round-eq f g in_pre behind (some (a, b)) same lt =
    rw (same (Markup.pre_after (Markup.raw_tag a) in_pre) b (omega (arith, lt a b refl)))

html_round-eq :
    (f g : Bool → Text → Text) (in_pre : Bool) (rest : Text) (o : Option (Text × Text))
    → ((p : Bool) (r : Text) → length r < length rest → f p r ≡ g p r)
    → ((a b : Text) → o ≡ some (a, b) → length b < length rest)
    → html_round f in_pre rest o ≡ html_round g in_pre rest o
unfolding html_round
html_round-eq f g in_pre rest none same lt = refl
html_round-eq f g in_pre rest (some (a, b)) same lt =
    let shorter : length b < length rest = lt a b refl in
    ap (λ z. a ++ z)
      (tag_round-eq f g in_pre b (split_once b'>' b) (λ p r le. same p r (omega arith))
        (λ x y e. split_once-length b'>' b x y e))

-- The loop over the tags ends: every fuel above the length of the text gives one answer, that of the
-- code, which takes one more than the length.
html_loop-fuel :
    (f g : ℕ) (in_pre : Bool) (rest : Text)
    → length rest < f
    → length rest < g
    → html_loop f in_pre rest ≡ html_loop g in_pre rest
unfolding html_loop
html_loop-fuel zero g in_pre rest hf hg = absurd (omega arith)
html_loop-fuel (suc f) zero in_pre rest hf hg = absurd (omega arith)
html_loop-fuel (suc f) (suc g) in_pre rest hf hg =
    html_round-eq (λ p r. html_loop f p r) (λ p r. html_loop g p r) in_pre rest
      (split_once b'<' rest) (λ p r lt. html_loop-fuel f g p r (omega arith) (omega arith))
      (λ a b e. split_once-length b'<' rest a b e)
