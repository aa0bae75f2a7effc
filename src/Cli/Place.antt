-- ===== src/Cli/Place.antt =====
-- Which positionals are a file with a position: cli/args.rs.
use kmp_lsp.Base.{
  ℕ, ◌<◌, ◌≡◌, ◌↔◌, refl, some, List, [], ◌∷◌, ◌++◌, ◌==◌, arith, inl, inr, Bool-cases,
  Option-cases,
}
use kmp_lsp.Text.{Text, codes}
use kmp_lsp.Cli.Outcome.{Outcome, ok, err, exits, panics, ◌>>=◌}
use kmp_lsp.Cli.Flags.{parse_u32}
use kmp_lsp.Cli.Build.{
  positive, next_positional, parse_file_line_col, line_error, line_zero, col_error, col_zero,
}

positive_iff : (s e z : Text) (n : ℕ) → (positive s e z ≡ ok n) ↔ ((parse_u32 s ≡ some n) × (0 < n))
unfolding positive
positive_iff s e z n = elim (Option-cases (parse_u32 s)) [
  | inl a ↦ rw a (λ h. cc, λ h. cc)
  | inr (m, a) ↦ elim (Bool-cases (m == 0)) [
    | inl b ↦ rw (a, b) (λ h. cc, λ h. ground (arith, b, h.0, h.1))
    | inr b ↦ rw (a, b) (λ h. ground (arith, b, h), λ h. ground (arith, h.0))
  ]
]

>>=-ok {ℓ κ} :
    {A : Type ℓ} {B : Type κ} (m : Outcome A) (f : A → Outcome B) (b : B)
    → (m >>= f) ≡ ok b
    → (a : A) × (m ≡ ok a) × (f a ≡ ok b)
>>=-ok (ok a) f b h = (a, refl, h)
>>=-ok (err e) f b h = cc
>>=-ok (exits x) f b h = cc
>>=-ok panics f b h = cc

-- The positionals that stand for a file with a line and a column.
abbrev pub Place : List Text → Text → ℕ → ℕ → Type 0
Place ps file line col =
    (l c : Text) × (rest : List Text) × (ps ≡ file ∷ l ∷ c ∷ rest)
    × (parse_u32 l ≡ some line)
    × (0 < line)
    × (parse_u32 c ≡ some col)
    × (0 < col)

accepted :
    (ps : List Text) (name file : Text) (line col : ℕ)
    → parse_file_line_col ps name ≡ ok (file, line, col)
    → Place ps file line col
unfolding parse_file_line_col next_positional
accepted [] name file line col h = cc
accepted (f ∷ []) name file line col h = cc
accepted (f ∷ l ∷ []) name file line col h =
    let (n, a, b) =
      >>=-ok (positive l line_error line_zero) (λ n. err (name ++ codes " requires COL argument"))
        (file, line, col) h in
    cc
accepted (f ∷ l ∷ c ∷ rest) name file line col h =
    let (n, a, b) =
      >>=-ok (positive l line_error line_zero)
        (λ n. positive c col_error col_zero >>= λ m. ok (f, n, m)) (file, line, col) h in
    let (m, d, e) =
      >>=-ok (positive c col_error col_zero) (λ m. ok (f, n, m)) (file, line, col) b in
    let same : ◌≡◌ {A = Text × ℕ × ℕ} (f, n, m) (file, line, col) = ground (arith, e) in
    let line_ok = (positive_iff l line_error line_zero n).0 a in
    let col_ok = (positive_iff c col_error col_zero m).0 d in
    (
      l,
      c,
      rest,
      ground (arith, e),
      ground (arith, e, line_ok.0),
      ground (arith, e, line_ok.1),
      ground (arith, e, col_ok.0),
      ground (arith, e, col_ok.1),
    )

parsed :
    (ps : List Text) (name file : Text) (line col : ℕ)
    → Place ps file line col
    → parse_file_line_col ps name ≡ ok (file, line, col)
unfolding parse_file_line_col next_positional
parsed ps name file line col (l, c, rest, p, a, b, d, e) = rw (
  p,
  (positive_iff l line_error line_zero line).1 (a, b),
  (positive_iff c col_error col_zero col).1 (d, e),
)

-- A place is accepted exactly where the positionals start with a file and two numbers of 32 bits
-- above zero, and it is that file with these numbers; every other list of positionals is refused.
pub parse_file_line_col_iff :
    (ps : List Text) (name file : Text) (line col : ℕ)
    → (parse_file_line_col ps name ≡ ok (file, line, col)) ↔ Place ps file line col
parse_file_line_col_iff ps name file line col =
    (accepted ps name file line col, parsed ps name file line col)
