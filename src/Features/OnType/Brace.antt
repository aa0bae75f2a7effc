-- ===== src/Features/OnType/Brace.antt =====
-- A block that a new line opens is indented once: features/on_type_formatting.rs.
use kmp_lsp.Base.{
  ℕ, ◌+◌, ◌^◌, ◌<◌, ◌≡◌, refl, sym, ap, ◌∙◌, true, ◌&&◌, Option, none, some, List, ◌++◌, is_empty,
  get_elem?, arith, length, inl, inr, Bool-cases, Option-cases,
}
use kmp_lsp.Text.{Text, codes, trim_start, starts_with, strip_prefix}
use kmp_lsp.Features.OnType.{
  TextEdit, line_at, reindent, brace_newline, brace_on, unless_none, closing_below, split_pair,
  fix_lines,
}
use kmp_lsp.Features.OnType.Settles.{apply_edits, apply_some, AreBlank, AreBlank-append}
use kmp_lsp.Features.OnType.Reindented.{
  IsIndented, reindented, reindent-applied, reindent-settled, reindent-elsewhere, line_at-get_elem?,
  line_at_same, get_elem?-lt, get_elem?-line_at, length-apply_edits, apply_edits-append,
  apply_some-unless_none, trim-reindented, trim-line,
}

module _ (lines : List Text) (i : ℕ) (indent tab : Text) (p : IsIndented (line_at lines i))
    (q : IsIndented (line_at lines (i + 1))) (lt : i < length lines) (small : i + 1 < 2 ^ 32)
    (bi : AreBlank indent) (bt : AreBlank tab)
    (open_ : strip_prefix (codes "}") p.rest ≡ none) where
  inner : AreBlank (indent ++ tab)
  inner = AreBlank-append indent tab bi bt

  edits : List TextEdit
  edits = reindent i (line_at lines i) (indent ++ tab)

  first-line : line_at (apply_edits edits lines) i ≡ reindented (line_at lines i) p (indent ++ tab)
  unfolding edits
  first-line =
      reindent-applied lines i (line_at lines i) (indent ++ tab) p lt (omega (arith, small)) inner
        refl

  next-line : get_elem? (apply_edits edits lines) (i + 1) ≡ get_elem? lines (i + 1)
  unfolding edits
  next-line =
      reindent-elsewhere lines i (i + 1) (line_at lines i) (indent ++ tab) (omega (arith, small))
        (λ (e : i ≡ i + 1). omega (arith, e))

  -- Only the line of the cursor is looked at.
  alone :
      (next : Option Text)
      → closing_below next (is_empty p.rest) ≡ none
      → (l : Text) → trim_start l ≡ p.rest
      → brace_on l next i indent tab ≡ unless_none (reindent i l (indent ++ tab))
  unfolding brace_on
  alone next c l t =
      ap (split_pair next i l indent (indent ++ tab)) (ap (strip_prefix (codes "}")) t ∙ open_)
      ∙ ap (λ r. fix_lines i l indent (indent ++ tab) (closing_below next (is_empty r))) t
      ∙ ap (fix_lines i l indent (indent ++ tab)) c

  both :
      (next n : Text)
      → closing_below (some next) (is_empty p.rest) ≡ some n
      → (l : Text) → trim_start l ≡ p.rest
      → brace_on l (some next) i indent tab
        ≡ unless_none (reindent i l (indent ++ tab) ++ reindent (i + 1) n indent)
  unfolding brace_on
  both next n c l t =
      ap (split_pair (some next) i l indent (indent ++ tab))
        (ap (strip_prefix (codes "}")) t ∙ open_)
      ∙ ap (λ r. fix_lines i l indent (indent ++ tab) (closing_below (some next) (is_empty r))) t
      ∙ ap (fix_lines i l indent (indent ++ tab)) c

  settles-alone :
      closing_below (get_elem? lines (i + 1)) (is_empty p.rest) ≡ none
      → brace_newline (apply_some (brace_newline lines i indent tab) lines) i indent tab ≡ none
  unfolding brace_newline edits
  settles-alone c =
      rw
        (
          alone (get_elem? lines (i + 1)) c (line_at lines i) (trim-line (line_at lines i) p),
          apply_some-unless_none edits lines,
          next-line,
          first-line,
          alone (get_elem? lines (i + 1)) c (reindented (line_at lines i) p (indent ++ tab))
              (trim-reindented (line_at lines i) (indent ++ tab) p inner),
          reindent-settled i (line_at lines i) (indent ++ tab) p inner,
        )
        refl

  below : Text
  below = line_at lines (i + 1)

  edits_below : List TextEdit
  edits_below = reindent (i + 1) (line_at lines (i + 1)) indent

  closing-some :
      (next : Text)
      → trim_start next ≡ q.rest
      → (is_empty p.rest && starts_with (codes "}") q.rest) ≡ true
      → closing_below (some next) (is_empty p.rest) ≡ some next
  closing-some next t c = rw (t, c) refl

  module _ (e : get_elem? lines (i + 1) ≡ some (line_at lines (i + 1)))
      (c : (is_empty p.rest && starts_with (codes "}") q.rest) ≡ true) where
    after : List Text
    after = apply_edits edits_below (apply_edits edits lines)

    lt-below : i + 1 < length (apply_edits edits lines)
    lt-below = omega (
      arith,
      get_elem?-lt lines (i + 1) (line_at lines (i + 1)) e,
      length-apply_edits edits lines,
    )

    first-after : line_at after i ≡ reindented (line_at lines i) p (indent ++ tab)
    unfolding after edits_below
    first-after =
        line_at_same after (apply_edits edits lines) i (
          reindent-elsewhere (apply_edits edits lines) (i + 1) i (line_at lines (i + 1)) indent
            small (λ (f : i + 1 ≡ i). omega (arith, f)))
        ∙ first-line

    next-after : get_elem? after (i + 1) ≡ some (reindented (line_at lines (i + 1)) q indent)
    unfolding after edits_below
    next-after =
        get_elem?-line_at after (i + 1)
          (omega (arith, lt-below, length-apply_edits edits_below (apply_edits edits lines)))
        ∙ ap some (
            reindent-applied (apply_edits edits lines) (i + 1) (line_at lines (i + 1)) indent q
              lt-below small bi (line_at_same (apply_edits edits lines) lines (i + 1) next-line))

    settles-both :
        brace_newline (apply_some (brace_newline lines i indent tab) lines) i indent tab ≡ none
    unfolding brace_newline edits edits_below after
    settles-both =
        rw
          (
            e,
            both (line_at lines (i + 1)) (line_at lines (i + 1))
                (closing-some (line_at lines (i + 1)) (trim-line (line_at lines (i + 1)) q) c)
                (line_at lines i) (trim-line (line_at lines i) p),
            apply_some-unless_none (edits ++ edits_below) lines,
            apply_edits-append edits edits_below lines,
            first-after,
            next-after,
            both (reindented (line_at lines (i + 1)) q indent)
                (reindented (line_at lines (i + 1)) q indent)
                (closing-some (reindented (line_at lines (i + 1)) q indent)
                  (trim-reindented (line_at lines (i + 1)) indent q bi) c)
                (reindented (line_at lines i) p (indent ++ tab))
                (trim-reindented (line_at lines i) (indent ++ tab) p inner),
            reindent-settled i (line_at lines i) (indent ++ tab) p inner,
            reindent-settled (i + 1) (line_at lines (i + 1)) indent q bi,
          )
          refl

  -- What was edited is not edited again: the line that a new line opens, and the closing brace
  -- below it, keep the indentation that they were given. The lines stand behind spaces and tabs,
  -- the cursor's is one of them and does not start with the closing brace, and the numbers fit 32
  -- bits.
  pub brace_newline-settles :
      brace_newline (apply_some (brace_newline lines i indent tab) lines) i indent tab ≡ none
  brace_newline-settles = elim (Option-cases (get_elem? lines (i + 1))) [
    | inl e ↦ settles-alone (rw e refl)
    | inr (n, e) ↦
        let n_is : line_at lines (i + 1) ≡ n = line_at-get_elem? lines (i + 1) n e in
        let rest : trim_start n ≡ q.rest =
          ap trim_start (sym n_is) ∙ trim-line (line_at lines (i + 1)) q in
        elim (Bool-cases (is_empty p.rest && starts_with (codes "}") q.rest)) [
          | inl c ↦ settles-both (e ∙ ap some (sym n_is)) c
          | inr c ↦ settles-alone (rw (e, rest, c) refl)
        ]
  ]
