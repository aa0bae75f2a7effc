-- ===== src/Features/OnType/Reindented.antt =====
-- Lines before and after they were indented anew: features/on_type_formatting.rs.
use kmp_lsp.Base.{
  ℕ, zero, suc, ◌^◌, ◌<◌, ◌≡◌, ◌≢◌, refl, ap, ◌∙◌, some, List, [], ◌∷◌, ◌++◌, ◌==◌, if◌then◌else◌,
  get_elem?, arith, length, inl, inr, Bool-cases, ==_refl,
}
use kmp_lsp.Text.{Text, byte_len, trim_start}
use kmp_lsp.Features.OnType.{
  TextEdit, replace_start, line_at, indent_len, reindent, as_u32, unless_none,
}
use kmp_lsp.Features.OnType.Settles.{
  set, apply_edit, apply_edits, apply_some, AreBlank, IsInk, trim_start-indented,
  indent_len-indented, byte_len-blank, line_at-replaced,
}

get_elem?-set_self :
    (lines : List Text) (i : ℕ) (v : Text) → i < length lines → get_elem? (set lines i v) i ≡ some v
get_elem?-set_self [] i v h = absurd (omega (arith, h))
get_elem?-set_self (x ∷ xs) zero v h = refl
get_elem?-set_self (x ∷ xs) (suc i) v h = get_elem?-set_self xs i v (omega (arith, h))

get_elem?-set_ne :
    (lines : List Text) (i j : ℕ) (v : Text)
    → i ≢ j
    → get_elem? (set lines i v) j ≡ get_elem? lines j
get_elem?-set_ne [] i j v h = refl
get_elem?-set_ne (x ∷ xs) zero zero v h = absurd (h refl)
get_elem?-set_ne (x ∷ xs) zero (suc j) v h = refl
get_elem?-set_ne (x ∷ xs) (suc i) zero v h = refl
get_elem?-set_ne (x ∷ xs) (suc i) (suc j) v h =
    get_elem?-set_ne xs i j v (λ (e : i ≡ j). h (ap suc e))

-- A line that stands behind an indentation of spaces and tabs.
pub record IsIndented (line : Text) : Type 0 where
  pub indent : Text
  pub rest : Text
  pub blank : AreBlank indent
  pub ink : IsInk rest
  pub whole : line ≡ indent ++ rest
  pub fits : length indent < 2 ^ 32

-- What `reindent` leaves of a line.
abbrev pub reindented : (line : Text) → IsIndented line → Text → Text
reindented line p wanted = if length p.indent == length wanted then line else wanted ++ p.rest

reindent-edits :
    (i : ℕ) (line wanted : Text) (p : IsIndented line)
    → AreBlank wanted
    → reindent i line wanted ≡ (
        if length p.indent == length wanted
        then []
        else replace_start i (length p.indent) wanted ∷ [])
reindent-edits i line wanted p b =
    let len : indent_len line ≡ length p.indent =
      ap indent_len p.whole ∙ indent_len-indented p.indent p.rest p.blank p.ink in
    rw (len, byte_len-blank wanted b) refl

pub reindent-applied :
    (lines : List Text) (i : ℕ) (line wanted : Text) (p : IsIndented line)
    → i < length lines
    → i < 2 ^ 32
    → AreBlank wanted
    → line_at lines i ≡ line
    → line_at (apply_edits (reindent i line wanted) lines) i ≡ reindented line p wanted
unfolding apply_edits
reindent-applied lines i line wanted p lt small b e =
    elim (Bool-cases (length p.indent == length wanted)) [
      | inl s ↦ rw (reindent-edits i line wanted p b, s) e
      | inr s ↦
          rw (reindent-edits i line wanted p b, s)
            (line_at-replaced lines i p.indent p.rest wanted lt small p.fits p.blank (e ∙ p.whole))
    ]

-- A second look at the line that is left finds nothing to do.
pub reindent-settled :
    (i : ℕ) (line wanted : Text) (p : IsIndented line)
    → AreBlank wanted
    → reindent i (reindented line p wanted) wanted ≡ []
reindent-settled i line wanted p b = elim (Bool-cases (length p.indent == length wanted)) [
  | inl s ↦ rw (s, reindent-edits i line wanted p b, s) refl
  | inr s ↦
      rw
        (
          s,
          indent_len-indented wanted p.rest b p.ink,
          byte_len-blank wanted b,
          ==_refl (length wanted),
        )
        refl
]

pub reindent-elsewhere :
    (lines : List Text) (i j : ℕ) (line wanted : Text)
    → i < 2 ^ 32
    → i ≢ j
    → get_elem? (apply_edits (reindent i line wanted) lines) j ≡ get_elem? lines j
unfolding apply_edits apply_edit
reindent-elsewhere lines i j line wanted small ne =
    elim (Bool-cases (indent_len line == byte_len wanted)) [
      | inl s ↦ rw s refl
      | inr s ↦
          let same : as_u32 i ≡ i = omega (arith, small) in
          rw (s, same) (get_elem?-set_ne lines i j _ ne)
    ]

pub line_at-get_elem? :
    (lines : List Text) (i : ℕ) (l : Text) → get_elem? lines i ≡ some l → line_at lines i ≡ l
unfolding line_at
line_at-get_elem? lines i l e = rw e refl

pub line_at_same :
    (ls ms : List Text) (i : ℕ) → get_elem? ls i ≡ get_elem? ms i → line_at ls i ≡ line_at ms i
unfolding line_at
line_at_same ls ms i e = rw e refl

pub get_elem?-lt :
    (lines : List Text) (i : ℕ) (l : Text) → get_elem? lines i ≡ some l → i < length lines
get_elem?-lt [] i l e = cc
get_elem?-lt (x ∷ xs) zero l e = omega arith
get_elem?-lt (x ∷ xs) (suc i) l e = omega (arith, get_elem?-lt xs i l e)

pub get_elem?-line_at :
    (lines : List Text) (i : ℕ) → i < length lines → get_elem? lines i ≡ some (line_at lines i)
unfolding line_at
get_elem?-line_at [] i h = absurd (omega (arith, h))
get_elem?-line_at (x ∷ xs) zero h = refl
get_elem?-line_at (x ∷ xs) (suc i) h = get_elem?-line_at xs i (omega (arith, h))

pub length-apply_edits :
    (es : List TextEdit) (lines : List Text) → length (apply_edits es lines) ≡ length lines
unfolding apply_edits apply_edit
length-apply_edits [] lines = refl
length-apply_edits (e ∷ es) lines = length-apply_edits es _ ∙ length-set lines e.start_line _
  where
    length-set : (ls : List Text) (i : ℕ) (v : Text) → length (set ls i v) ≡ length ls
    length-set [] i v = refl
    length-set (x ∷ xs) zero v = refl
    length-set (x ∷ xs) (suc i) v = ap suc (length-set xs i v)

pub apply_edits-append :
    (es fs : List TextEdit) (lines : List Text)
    → apply_edits (es ++ fs) lines ≡ apply_edits fs (apply_edits es lines)
unfolding apply_edits
apply_edits-append [] fs lines = refl
apply_edits-append (e ∷ es) fs lines = apply_edits-append es fs (apply_edit e lines)

pub apply_some-unless_none :
    (es : List TextEdit) (lines : List Text)
    → apply_some (unless_none es) lines ≡ apply_edits es lines
unfolding apply_some apply_edits
apply_some-unless_none [] lines = refl
apply_some-unless_none (e ∷ es) lines = refl

pub trim-reindented :
    (line wanted : Text) (p : IsIndented line)
    → AreBlank wanted
    → trim_start (reindented line p wanted) ≡ p.rest
trim-reindented line wanted p b = elim (Bool-cases (length p.indent == length wanted)) [
  | inl s ↦ rw s (ap trim_start p.whole ∙ trim_start-indented p.indent p.rest p.blank p.ink)
  | inr s ↦ rw s (trim_start-indented wanted p.rest b p.ink)
]

pub trim-line : (line : Text) (p : IsIndented line) → trim_start line ≡ p.rest
trim-line line p = ap trim_start p.whole ∙ trim_start-indented p.indent p.rest p.blank p.ink
