-- ===== src/TypeText/Prefix.antt =====
-- The readers of detail_text.rs: the type at the beginning of a text, and the search for the return
-- type.
use kmp_lsp.Base.{
  ℕ, zero, suc, ◌+◌, ◌<◌, ◌≡◌, refl, ap, false, some, [], ◌∷◌, arith, inl, inr, Option-cases,
  or_else, length, take, drop, length-take,
}
use kmp_lsp.Text.{Text, Unicode, rfind_char, contains_char}
use kmp_lsp.TypeText.Detail.{
  type_from, extract_type_with_generics, return_after, return_from, declared_return_in_detail,
}

type_from-take : (depth : ℕ) (s : Text) → take (length (type_from depth s)) s ≡ type_from depth s
type_from-take zero [] = refl
type_from-take (suc depth) [] = refl
type_from-take zero (c ∷ s) = ground (arith, type_from-take 1 s, type_from-take 0 s)
type_from-take (suc depth) (c ∷ s) = ground (
  arith,
  type_from-take (suc (suc depth)) s,
  type_from-take depth s,
  type_from-take (suc depth) s,
)

-- The extracted type is a prefix of the text, so the slice behind it, which looks for the `?`, is
-- the text's remainder.
pub extract_type_with_generics-take :
    (s : Text) → take (length (extract_type_with_generics s)) s ≡ extract_type_with_generics s
unfolding extract_type_with_generics
extract_type_with_generics-take s = type_from-take 0 s

rfind_char-lt : (c : ℕ) (s : Text) (i : ℕ) → rfind_char c s ≡ some i → i < length s
unfolding rfind_char
rfind_char-lt c [] i h = absurd (cc)
rfind_char-lt c (d ∷ s) i h = elim (Option-cases (rfind_char c s)) [
  | inl e ↦ ground arith
  | inr (j, e) ↦ ground (arith, rfind_char-lt c s j)
]

return_from-fuel :
    (u : Unicode) (f g : ℕ) (detail : Text) (search_from : ℕ)
    → search_from < f
    → search_from < g
    → return_from u f detail search_from ≡ return_from u g detail search_from
unfolding return_from
return_from-fuel u zero g detail k hf hg = absurd (omega arith)
return_from-fuel u (suc f) zero detail k hf hg = absurd (omega arith)
return_from-fuel u (suc f) (suc g) detail k hf hg =
    elim (Option-cases (rfind_char b')' (take k detail))) [
      | inl e ↦ rw e
      | inr (i, e) ↦
          let lt = rfind_char-lt b')' (take k detail) i e in
          rw e (
            ap (or_else (return_after u (drop (i + 1) detail))) (
              return_from-fuel u f g detail i (omega (arith, length-take k detail))
                (omega (arith, length-take k detail))))
    ]

-- The search for the return type ends: in a detail that is not cut off by an ellipsis, every fuel
-- above the length of the detail gives the answer of the code.
declared_return-fuel :
    (u : Unicode) (fuel : ℕ) (detail : Text)
    → length detail < fuel
    → contains_char 0x2026 detail ≡ false
    → return_from u fuel detail (length detail) ≡ declared_return_in_detail u detail
unfolding declared_return_in_detail
declared_return-fuel u fuel detail h whole =
    rw whole (return_from-fuel u fuel (suc (length detail)) detail (length detail) h (omega arith))
