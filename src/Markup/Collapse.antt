-- ===== src/Markup/Collapse.antt =====
-- `collapse_blank_lines`.
use kmp_lsp.Base.{ℕ, ◌+◌, ◌≤◌, ◌≡◌, refl, [], ◌∷◌, arith, leb, ◌==◌, if◌then◌else◌}
use kmp_lsp.Text.{Text}
use kmp_lsp.Markup.{collapse_from, collapse_blank_lines}

-- No run of newlines is longer than two, where `run` newlines stand just before.
abbrev pub ShortRuns : ℕ → Text → Type 0
ShortRuns run [] = run ≤ 2
ShortRuns run (c ∷ s) = (run ≤ 2) × ShortRuns (if c == b'\n' then run + 1 else 0) s

collapse_from-ShortRuns :
    (n run : ℕ) (s : Text) → run ≡ (if leb n 2 then n else 2) → ShortRuns run (collapse_from n s)
unfolding collapse_from
collapse_from-ShortRuns n run [] e = ground arith
collapse_from-ShortRuns n run (c ∷ s) e = ground (
  arith,
  collapse_from-ShortRuns (n + 1) (run + 1) s,
  collapse_from-ShortRuns (n + 1) run s,
  collapse_from-ShortRuns 0 0 s,
)

ShortRuns-run : (n : ℕ) (s : Text) → ShortRuns n s → n ≤ 2
ShortRuns-run n [] h = h
ShortRuns-run n (c ∷ s) h = h.0

collapse_from-kept : (n : ℕ) (s : Text) → ShortRuns n s → collapse_from n s ≡ s
unfolding collapse_from
collapse_from-kept n [] h = refl
collapse_from-kept n (c ∷ s) h =
    ground (arith, ShortRuns-run (n + 1) s, collapse_from-kept (n + 1) s, collapse_from-kept 0 s)

-- After the collapse no run of newlines is longer than two.
collapse_blank_lines-ShortRuns : (s : Text) → ShortRuns 0 (collapse_blank_lines s)
unfolding collapse_blank_lines
collapse_blank_lines-ShortRuns s = collapse_from-ShortRuns 0 0 s refl

-- A second collapse changes nothing.
pub collapse_blank_lines_idem :
    (s : Text) → collapse_blank_lines (collapse_blank_lines s) ≡ collapse_blank_lines s
unfolding collapse_blank_lines
collapse_blank_lines_idem s =
    collapse_from-kept 0 (collapse_from 0 s) (collapse_from-ShortRuns 0 0 s refl)
