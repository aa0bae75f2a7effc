-- ===== src/TextUtils/Declares.antt =====
-- `is_declaration_of` of text_utils.rs.
use kmp_lsp.Base.{
  ◌≡◌, ap, Bool, true, some, List, [], ◌∷◌, ◌++◌, map, arith, inl, inr, Bool-cases, Option-cases,
  any,
}
use kmp_lsp.Text.{Text, codes, contains, strip_prefix}
use kmp_lsp.Text.Laws.{strip_prefix-eq_some, text_eq_refl}
use kmp_lsp.TextUtils.{after_first, at_boundary, is_declaration_of, reference_declaration_keywords}
use kmp_lsp.TextUtils

-- `p` stands in `s`, with a boundary behind it.
abbrev pub BoundedIn : Text → Text → Type 0
BoundedIn p s = (pre : Text) × (post : Text) × (s ≡ pre ++ (p ++ post)) × (at_boundary post ≡ true)

after_first-split : (p s r : Text) → after_first p s ≡ some r → (pre : Text) × (s ≡ pre ++ (p ++ r))
after_first-split p [] r h = ([], strip_prefix-eq_some p [] r h)
after_first-split p (c ∷ s) r h = elim (Option-cases (strip_prefix p (c ∷ s))) [
  | inl e ↦ let (pre, q) = after_first-split p s r (ground arith) in (c ∷ pre, ap (λ z. c ∷ z) q)
  | inr (z, e) ↦ ([], strip_prefix-eq_some p (c ∷ s) r (ground arith))
]

declares-split :
    (content name kw : Text)
    → TextUtils.declares_with content name kw ≡ true
    → BoundedIn (kw ++ name) content
unfolding TextUtils.declares_with
declares-split content name kw h = elim (Option-cases (after_first (kw ++ name) content)) [
  | inl e ↦ absurd (ground arith)
  | inr (r, e) ↦
      let (pre, q) = after_first-split (kw ++ name) content r e in (pre, r, q, ground arith)
]

any-contains :
    (p : Text → Bool) (ts : List Text)
    → any p ts ≡ true
    → (t : Text) × (contains ts t ≡ true) × (p t ≡ true)
any-contains p [] h = absurd (cc)
any-contains p (t ∷ ts) h = elim (Bool-cases (p t)) [
  | inl e ↦ (t, ground (arith, text_eq_refl t), e)
  | inr e ↦ let (x, m, q) = any-contains p ts (ground arith) in (x, ground arith, q)
]

-- Where a line is taken for a declaration of a name, a declaration keyword directly followed by the
-- name stands in it, and no ASCII letter, digit or underscore comes next.
is_declaration_of-split :
    (content name : Text)
    → is_declaration_of content name ≡ true
    → (kw : Text) × (contains (map codes reference_declaration_keywords) kw ≡ true)
      × BoundedIn (kw ++ name) content
unfolding is_declaration_of
is_declaration_of-split content name h =
    let (kw, m, q) =
      any-contains (TextUtils.declares_with content name) (map codes reference_declaration_keywords)
        h in
    (kw, m, declares-split content name kw q)
