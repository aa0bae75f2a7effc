-- ===== src/Features/OnType/Settles.antt =====
-- A new line is indented or continued once: features/on_type_formatting.rs.
use kmp_lsp.Base.{
  ℕ, zero, suc, ◌+◌, ◌-◌, ◌^◌, ◌<◌, ◌≡◌, ◌≢◌, refl, ap, ◌∙◌, true, false, Option, none, some, List,
  [], ◌∷◌, ◌++◌, if◌then◌else◌, arith, length, All, inl, inr, Bool-cases, append_assoc,
}
use kmp_lsp.Text.{Text, codes, byte_len, len_utf16, trim_start, starts_with, is_whitespace}
use kmp_lsp.Text.Laws.{strip_prefix-append}
use kmp_lsp.Features.OnType.{
  TextEdit, replace_start, line_at, indent_len, comment_newline, comment_on, is_blank, as_u32,
}

-- What the client does with an edit: the units of UTF-16 up to `end_char` are replaced.
unfoldable pub drop_utf16 : ℕ → Text → Text
drop_utf16 zero s = s
drop_utf16 (suc n) [] = []
drop_utf16 (suc n) (c ∷ s) = drop_utf16 (suc n - len_utf16 c) s

abbrev pub set {ℓ} : {A : Type ℓ} → List A → ℕ → A → List A
set [] i v = []
set (x ∷ xs) zero v = v ∷ xs
set (x ∷ xs) (suc i) v = x ∷ set xs i v

unfoldable pub apply_edit : TextEdit → List Text → List Text
apply_edit e lines =
    set lines e.start_line (e.new_text ++ drop_utf16 e.end_char (line_at lines e.start_line))

unfoldable pub apply_edits : List TextEdit → List Text → List Text
apply_edits [] lines = lines
apply_edits (e ∷ es) lines = apply_edits es (apply_edit e lines)

unfoldable pub apply_some : Option (List TextEdit) → List Text → List Text
apply_some none lines = lines
apply_some (some es) lines = apply_edits es lines

pub line_at-set_self :
    (lines : List Text) (i : ℕ) (v : Text) → i < length lines → line_at (set lines i v) i ≡ v
unfolding line_at
line_at-set_self [] i v h = absurd (omega (arith, h))
line_at-set_self (x ∷ xs) zero v h = refl
line_at-set_self (x ∷ xs) (suc i) v h = line_at-set_self xs i v (omega (arith, h))

pub line_at-set_ne :
    (lines : List Text) (i j : ℕ) (v : Text) → i ≢ j → line_at (set lines i v) j ≡ line_at lines j
unfolding line_at
line_at-set_ne [] i j v h = refl
line_at-set_ne (x ∷ xs) zero zero v h = absurd (h refl)
line_at-set_ne (x ∷ xs) zero (suc j) v h = refl
line_at-set_ne (x ∷ xs) (suc i) zero v h = refl
line_at-set_ne (x ∷ xs) (suc i) (suc j) v h = line_at-set_ne xs i j v (λ (e : i ≡ j). h (ap suc e))

-- An indentation of spaces and tabs, and a text that starts with ink.
abbrev pub AreBlank : Text → Type 0
AreBlank w = All (λ c. is_blank c ≡ true) w

abbrev pub IsInk : Text → Type 0
IsInk [] = Unit
IsInk (c ∷ s) = is_whitespace c ≡ false

blank_whitespace : (c : ℕ) → is_blank c ≡ true → is_whitespace c ≡ true
unfolding is_whitespace
blank_whitespace c h = ground arith

blank_small : (c : ℕ) → is_blank c ≡ true → c < 128
blank_small c h = ground arith

drop_ink : (r : Text) → IsInk r → trim_start r ≡ r
unfolding trim_start
drop_ink [] h = refl
drop_ink (c ∷ s) h = rw h refl

pub trim_start-indented : (w r : Text) → AreBlank w → IsInk r → trim_start (w ++ r) ≡ r
unfolding trim_start
trim_start-indented [] r b i = drop_ink r i
trim_start-indented (c ∷ w) r (h, b) i = rw (blank_whitespace c h) (trim_start-indented w r b i)

byte_len-indented : (w r : Text) → AreBlank w → byte_len (w ++ r) ≡ length w + byte_len r
byte_len-indented [] r b = omega arith
byte_len-indented (c ∷ w) r (h, b) = ground (arith, byte_len-indented w r b, blank_small c h)

pub indent_len-indented : (w r : Text) → AreBlank w → IsInk r → indent_len (w ++ r) ≡ length w
unfolding indent_len
indent_len-indented w r b i =
    rw (trim_start-indented w r b i) (omega (arith, byte_len-indented w r b))

pub byte_len-blank : (w : Text) → AreBlank w → byte_len w ≡ length w
byte_len-blank [] b = omega arith
byte_len-blank (c ∷ w) (h, b) = ground (arith, byte_len-blank w b, blank_small c h)

pub drop_utf16-indented : (w r : Text) → AreBlank w → drop_utf16 (length w) (w ++ r) ≡ r
unfolding drop_utf16
drop_utf16-indented [] r b = refl
drop_utf16-indented (c ∷ w) r (h, b) =
    let one : len_utf16 c ≡ 1 = ground (arith, blank_small c h) in
    let rest : suc (length w) - len_utf16 c ≡ length w = omega (arith, one) in
    ap (λ n. drop_utf16 n (w ++ r)) rest ∙ drop_utf16-indented w r b

-- One edit puts the wanted text in the place of the indentation.
pub line_at-replaced :
    (lines : List Text) (i : ℕ) (w r text : Text)
    → i < length lines
    → i < 2 ^ 32
    → length w < 2 ^ 32
    → AreBlank w
    → line_at lines i ≡ w ++ r
    → line_at (apply_edit (replace_start i (length w) text) lines) i ≡ text ++ r
unfolding apply_edit
line_at-replaced lines i w r text lt small fits b e =
    let same : as_u32 i ≡ i = omega (arith, small) in
    let len : as_u32 (length w) ≡ length w = omega (arith, fits) in
    rw (same, len, e, drop_utf16-indented w r b) (line_at-set_self lines i (text ++ r) lt)

pub line_at-replaced_ne :
    (lines : List Text) (i j len : ℕ) (text : Text)
    → i < 2 ^ 32
    → i ≢ j
    → line_at (apply_edit (replace_start i len text) lines) j ≡ line_at lines j
unfolding apply_edit
line_at-replaced_ne lines i j len text small ne =
    let same : as_u32 i ≡ i = omega (arith, small) in rw same (line_at-set_ne lines i j _ ne)

pub AreBlank-append : (w v : Text) → AreBlank w → AreBlank v → AreBlank (w ++ v)
AreBlank-append [] v b d = d
AreBlank-append (c ∷ w) v (h, b) d = (h, AreBlank-append w v b d)

starts_with-append : (p s : Text) → starts_with p (p ++ s) ≡ true
starts_with-append p s = rw (strip_prefix-append p s) refl

comment_on-indented :
    (i : ℕ) (w r indent prefix : Text)
    → AreBlank w
    → IsInk r
    → comment_on (w ++ r) i indent prefix ≡ (
        if starts_with prefix r
        then none
        else some (replace_start i (length w) (indent ++ prefix ++ b' ' ∷ []) ∷ []))
unfolding comment_on
comment_on-indented i w r indent prefix b ink =
    rw (trim_start-indented w r b ink, indent_len-indented w r b ink) refl

comment_on-done :
    (i : ℕ) (r indent prefix : Text)
    → AreBlank indent
    → IsInk (prefix ++ b' ' ∷ r)
    → comment_on ((indent ++ prefix ++ b' ' ∷ []) ++ r) i indent prefix ≡ none
unfolding comment_on
comment_on-done i r indent prefix b ink =
    let assoc : (indent ++ prefix ++ b' ' ∷ []) ++ r ≡ indent ++ (prefix ++ b' ' ∷ r) =
      simp append_assoc in
    rw
      (
        assoc,
        trim_start-indented indent (prefix ++ b' ' ∷ r) b ink,
        starts_with-append prefix (b' ' ∷ r),
      )
      refl

-- After its edit a comment is not continued again, for a prefix that starts with ink: the line
-- stands indented behind spaces and tabs, and its number and length fit 32 bits.
pub comment_newline-settles :
    (lines : List Text) (i : ℕ) (w r indent prefix : Text)
    → i < length lines
    → i < 2 ^ 32
    → length w < 2 ^ 32
    → AreBlank w
    → IsInk r
    → AreBlank indent
    → IsInk (prefix ++ b' ' ∷ r)
    → line_at lines i ≡ w ++ r
    → comment_newline (apply_some (comment_newline lines i indent prefix) lines) i indent prefix
      ≡ none
unfolding comment_newline apply_some apply_edits
comment_newline-settles lines i w r indent prefix lt small fits b ink bi ip e =
    let first : comment_on (line_at lines i) i indent prefix ≡ _ =
      ap (λ l. comment_on l i indent prefix) e ∙ comment_on-indented i w r indent prefix b ink in
    elim (Bool-cases (starts_with prefix r)) [
      | inl s ↦ rw (first, s) (rw (first, s) refl)
      | inr s ↦
          rw
            (
              first,
              s,
              line_at-replaced lines i w r (indent ++ prefix ++ b' ' ∷ []) lt small fits b e,
            )
            (comment_on-done i r indent prefix bi ip)
    ]

pub trim_start-IsInk : (s : Text) → IsInk (trim_start s)
unfolding trim_start
trim_start-IsInk [] = tt
trim_start-IsInk (c ∷ s) = elim (Bool-cases (is_whitespace c)) [
  | inl e ↦ rw e (trim_start-IsInk s)
  | inr e ↦ rw e e
]

ink_space : (r : Text) → IsInk r → starts_with (codes " *") r ≡ false
unfolding is_whitespace
ink_space [] h = refl
ink_space (c ∷ s) h = ground (arith, h)

-- Behind `/**` the test for a continuation that the editor has inserted never holds: every line is
-- given the star, also one that has it.
comment_newline-always :
    (lines : List Text) (i : ℕ) (indent : Text)
    → comment_newline lines i indent (codes " *")
      ≡ some
          (replace_start i (indent_len (line_at lines i)) (indent ++ codes " *" ++ b' ' ∷ []) ∷ [])
unfolding comment_newline comment_on
comment_newline-always lines i indent =
    rw (ink_space (trim_start (line_at lines i)) (trim_start-IsInk (line_at lines i))) refl
