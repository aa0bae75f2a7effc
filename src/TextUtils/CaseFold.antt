-- ===== src/TextUtils/CaseFold.antt =====
-- The fast paths of the case-insensitive searches of text_utils.rs.
use kmp_lsp.Base.{
  ℕ, ◌+◌, ◌/◌, ◌%◌, ◌≤◌, ◌<◌, ◌≡◌, refl, sym, Bool, true, false, ◌||◌, List, [], ◌∷◌, ◌++◌, arith,
  inl, inr, Bool-cases, ltb, if◌then◌else◌, length, take,
}
use kmp_lsp.Text.{
  Text, Unicode, is_ascii, to_ascii_lowercase, ascii_lowercase, contains_text, starts_with,
}
use kmp_lsp.TextUtils.{
  utf8, utf8_char, all_lowered, any_window, contains_ignore_ascii_case,
  starts_with_ignore_ascii_case,
}

-- What the fast paths test at one place.
abbrev fits : List ℕ → Text → Bool
fits b h = if ltb (length h) (length b) then false else all_lowered (take (length b) h) b

utf8_char_head : (c : ℕ) → 128 ≤ c → (b : ℕ) × (bs : List ℕ) × (utf8_char c ≡ b ∷ bs) × (128 ≤ b)
utf8_char_head c h = elim (Bool-cases (ltb c 0x800)) [
  | inl two ↦ (0xC0 + c / 64, (0x80 + c % 64) ∷ [], ground arith, omega arith)
  | inr more ↦ elim (Bool-cases (ltb c 0x10000)) [
    | inl three ↦
        (0xE0 + c / 4096, (0x80 + c / 64 % 64) ∷ (0x80 + c % 64) ∷ [], ground arith, omega arith)
    | inr four ↦ (
      0xF0 + c / 262144,
      (0x80 + c / 4096 % 64) ∷ (0x80 + c / 64 % 64) ∷ (0x80 + c % 64) ∷ [],
      ground arith,
      omega arith,
    )
  ]
]

fits-foreign : (b a : ℕ) (bs h : List ℕ) → a < 128 → 128 ≤ b → fits (b ∷ bs) (a ∷ h) ≡ false
unfolding to_ascii_lowercase
fits-foreign b a bs h lo hi = ground arith

starts_with-foreign :
    (c a : ℕ) (n h : Text)
    → a < 128
    → 128 ≤ c
    → starts_with (c ∷ n) (ascii_lowercase (a ∷ h)) ≡ false
unfolding to_ascii_lowercase
starts_with-foreign c a n h lo hi = ground arith

fits-nil : (c : ℕ) (n : Text) → fits (utf8 (c ∷ n)) [] ≡ false
fits-nil c n = ground arith

fits-starts_with :
    (n h : Text) → is_ascii h ≡ true → fits (utf8 n) h ≡ starts_with n (ascii_lowercase h)
fits-starts_with [] h asc = ground arith
fits-starts_with (c ∷ n) [] asc = fits-nil c n
fits-starts_with (c ∷ n) (a ∷ h) asc = elim (Bool-cases (ltb c 128)) [
  | inl low ↦ ground (arith, fits-starts_with n h)
  | inr high ↦
      let (b, bs, e, big) = utf8_char_head c (ground arith) in
      rw (e, starts_with-foreign c a n h (ground arith) (ground arith))
        (fits-foreign b a (bs ++ utf8 n) h (ground arith) big)
]

any_window_short :
    (b : List ℕ) (h : Text) → ltb (length h) (length b) ≡ true → any_window b h ≡ false
unfolding any_window
any_window_short [] [] e = ground arith
any_window_short [] (a ∷ h) e = ground arith
any_window_short (x ∷ b) [] e = refl
any_window_short (x ∷ b) (a ∷ h) e = ground arith

any_window_step :
    (b : List ℕ) (a : ℕ) (h : Text) → any_window b (a ∷ h) ≡ (fits b (a ∷ h) || any_window b h)
unfolding any_window
any_window_step b a h = ground (arith, any_window_short b h)

any_window-contains_text :
    (n h : Text) → is_ascii h ≡ true → any_window (utf8 n) h ≡ contains_text n (ascii_lowercase h)
any_window-contains_text [] [] asc = unfold any_window in refl
any_window-contains_text (c ∷ n) [] asc = unfold any_window in ground arith
any_window-contains_text n (a ∷ h) asc =
    ground (
      arith,
      any_window_step (utf8 n) a h,
      fits-starts_with n (a ∷ h),
      any_window-contains_text n h,
    )

contains_nil : (h : Text) → contains_text [] h ≡ true
contains_nil [] = refl
contains_nil (c ∷ h) = refl

contains_cases :
    (u : Unicode) (h n : Text)
    → (is_ascii h ≡ true → any_window (utf8 n) h ≡ contains_text n (ascii_lowercase h))
    → (ltb (length h) (length (utf8 n)) ≡ true → any_window (utf8 n) h ≡ false)
    → (is_ascii h ≡ true → u.to_lowercase h ≡ ascii_lowercase h)
    → contains_ignore_ascii_case u h n ≡ contains_text n (u.to_lowercase h)
unfolding contains_ignore_ascii_case
contains_cases u h [] windows short lowers = sym (contains_nil (u.to_lowercase h))
contains_cases u h (c ∷ n) windows short lowers = ground arith

-- The search that ignores ASCII case finds a needle exactly where lowering the whole haystack and
-- searching it does, on an ASCII haystack by its scan over byte windows as well, for a lowering
-- that acts on ASCII texts letter by letter.
contains_ignore_ascii_case_lem :
    (u : Unicode) (haystack needle : Text)
    → ((s : Text) → is_ascii s ≡ true → u.to_lowercase s ≡ ascii_lowercase s)
    → contains_ignore_ascii_case u haystack needle ≡ contains_text needle (u.to_lowercase haystack)
unfolding contains_ignore_ascii_case
contains_ignore_ascii_case_lem u haystack needle lowers =
    contains_cases u haystack needle (any_window-contains_text needle haystack)
      (any_window_short (utf8 needle) haystack) (lowers haystack)

-- The same of the prefix test.
pub starts_with_ignore_ascii_case_lem :
    (u : Unicode) (haystack prefix : Text)
    → ((s : Text) → is_ascii s ≡ true → u.to_lowercase s ≡ ascii_lowercase s)
    → starts_with_ignore_ascii_case u haystack prefix ≡ starts_with prefix (u.to_lowercase haystack)
unfolding starts_with_ignore_ascii_case
starts_with_ignore_ascii_case_lem u haystack prefix lowers =
    ground (arith, fits-starts_with prefix haystack, lowers haystack)
