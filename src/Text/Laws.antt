-- ===== src/Text/Laws.antt =====
-- The laws of the text operations that more than one component uses.
use kmp_lsp.Base.{
  ℕ, ◌≤◌, ◌≡◌, ◌≢◌, ◌↔◌, refl, Bool, true, none, some, [], ◌∷◌, ◌++◌, arith, ==_iff, length, All,
}
use kmp_lsp.Text.{
  Text, text_eq, strip_prefix, find_char, rfind_char, drop_while, take_while, drop_end_while,
}

pub text_eq_iff : (s t : Text) → (text_eq s t ≡ true) ↔ (s ≡ t)
text_eq_iff [] [] = (λ h. refl, λ h. refl)
text_eq_iff [] (d ∷ t) = (λ h. cc, λ h. cc)
text_eq_iff (c ∷ s) [] = (λ h. cc, λ h. cc)
text_eq_iff (c ∷ s) (d ∷ t) = (
  λ h. ground (arith, text_eq_iff s t, ==_iff c d),
  λ h. ground (arith, text_eq_iff s t, ==_iff c d),
)

pub text_eq_refl : (s : Text) → text_eq s s ≡ true
text_eq_refl s = (text_eq_iff s s).1 refl

pub strip_prefix-append : (p s : Text) → strip_prefix p (p ++ s) ≡ some s
strip_prefix-append [] s = refl
strip_prefix-append (c ∷ p) s = ground (arith, strip_prefix-append p s)

-- The whole of a text is its prefix and what is left.
pub strip_prefix-eq_some : (p s r : Text) → strip_prefix p s ≡ some r → s ≡ p ++ r
strip_prefix-eq_some [] s r h = ground arith
strip_prefix-eq_some (c ∷ p) [] r h = cc
strip_prefix-eq_some (c ∷ p) (d ∷ s) r h = ground (arith, strip_prefix-eq_some p s r)

pub find_char-append :
    (c : ℕ) (a b : Text) → All (λ x. c ≢ x) a → find_char c (a ++ c ∷ b) ≡ some (length a)
unfolding find_char
find_char-append c [] b h = ground arith
find_char-append c (x ∷ a) b (p, h) = ground (arith, find_char-append c a b h)

pub rfind_char-none : (c : ℕ) (b : Text) → All (λ x. c ≢ x) b → rfind_char c b ≡ none
unfolding rfind_char
rfind_char-none c [] h = refl
rfind_char-none c (x ∷ b) (p, h) = ground (arith, rfind_char-none c b h)

pub rfind_char-append :
    (c : ℕ) (a b : Text) → All (λ x. c ≢ x) b → rfind_char c (a ++ c ∷ b) ≡ some (length a)
unfolding rfind_char
rfind_char-append c [] b h = ground (arith, rfind_char-none c b h)
rfind_char-append c (x ∷ a) b h = ground (arith, rfind_char-append c a b h)

pub take-drop_while : (p : ℕ → Bool) (s : Text) → take_while p s ++ drop_while p s ≡ s
take-drop_while p [] = refl
take-drop_while p (c ∷ s) = ground (arith, take-drop_while p s)

pub length-drop_end_while : (p : ℕ → Bool) (s : Text) → length (drop_end_while p s) ≤ length s
length-drop_end_while p [] = omega arith
length-drop_end_while p (c ∷ s) = ground (arith, length-drop_end_while p s)

pub length-drop_while : (p : ℕ → Bool) (s : Text) → length (drop_while p s) ≤ length s
length-drop_while p [] = omega arith
length-drop_while p (c ∷ s) = ground (arith, length-drop_while p s)
