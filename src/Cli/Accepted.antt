-- ===== src/Cli/Accepted.antt =====
-- What the command line accepts: cli/args.rs.
use kmp_lsp.Base.{
  ℕ, ◌+◌, ◌-◌, ◌*◌, ◌^◌, ◌<◌, ◌≡◌, refl, Bool, true, false, not, ◌&&◌, ◌||◌, Option, none, some,
  List, [], ◌∷◌, ◌++◌, ltb, ◌==◌, all, arith, inl, inr, Bool-cases, ltb→lt, Option-cases,
}
use kmp_lsp.Text.{Text, codes, is_ascii_digit}
use kmp_lsp.Cli.Outcome.{Outcome, ok, err, exits, panics, ◌>>=◌, choose-contains}
use kmp_lsp.Cli.Flags.{ParsedCliFlags, parse_u32, digits, digits_from, is_subcommand}
use kmp_lsp.Cli.Build.{
  Subcommand, find, refs, hover, complete, index, tokens, tree, diagnose, sources, extract_sources,
  check, missing_imports, unused_imports, resolution_accuracy, positive, next_positional,
  first_positional, parse_file_line_col, build_hover_subcommand, optional_col, line_error,
  line_zero, col_error, col_zero, build_complete_subcommand, is_diagnostic_name,
  validate_diagnostic_names, build_subcommand, build_diagnose, map_ok, guard, arms,
}

digits_from-lt : (n m : ℕ) (s : Text) → n < 2 ^ 32 → digits_from n s ≡ some m → m < 2 ^ 32
digits_from-lt n m [] lt h = ground arith
digits_from-lt n m (c ∷ s) lt h =
    elim (Bool-cases (is_ascii_digit c && ltb (10 * n + (c - b'0')) (2 ^ 32))) [
      | inl e ↦
          digits_from-lt (10 * n + (c - b'0')) m s
            (ltb→lt (10 * n + (c - b'0')) (2 ^ 32) (ground (arith, e))) (rw e at h)
      | inr e ↦ let g : none ≡ some m = rw e at h in cc
    ]

digits-lt : (m : ℕ) (s : Text) → digits s ≡ some m → m < 2 ^ 32
digits-lt m [] h = cc
digits-lt m (c ∷ s) h = digits_from-lt 0 m (c ∷ s) (omega arith) h

-- A number that is read is one of 32 bits.
pub parse_u32-lt : (m : ℕ) (s : Text) → parse_u32 s ≡ some m → m < 2 ^ 32
unfolding parse_u32
parse_u32-lt m [] h = cc
parse_u32-lt m (c ∷ s) h = elim (Bool-cases (c == b'+')) [
  | inl e ↦ digits-lt m s (rw e at h)
  | inr e ↦ digits-lt m (c ∷ s) (rw e at h)
]

-- What holds of a value, where there is one; a panic is excluded.
abbrev pub Gives {ℓ} : {A : Type ℓ} → (A → Type 0) → Outcome A → Type 0
Gives Q (ok a) = Q a
Gives Q (err e) = Unit
Gives Q (exits x) = Unit
Gives Q panics = ⊥

pub Gives->>= {ℓ κ} :
    {A : Type ℓ} {B : Type κ} (Q : A → Type 0) (R : B → Type 0) (m : Outcome A) (f : A → Outcome B)
    → Gives Q m
    → ((a : A) → Q a → Gives R (f a))
    → Gives R (m >>= f)
Gives->>= Q R (ok a) f h k = k a h
Gives->>= Q R (err e) f h k = tt
Gives->>= Q R (exits x) f h k = tt
Gives->>= Q R panics f h k = absurd h

abbrev IsPosition : ℕ → Type 0
IsPosition n = (0 < n) × (n < 2 ^ 32)

abbrev IsColumn : Bool → Bool → Option ℕ → Type 0
IsColumn dot eol none = (dot || eol) ≡ true
IsColumn dot eol (some c) = IsPosition c

abbrev AreNames : Option (List Text) → Type 0
AreNames none = Unit
AreNames (some names) = all is_diagnostic_name names ≡ true

-- Positions count from one and fit 32 bits, `--dot` and `--eol` exclude each other and one of them
-- stands where a column is missing, and the diagnostics have names that are known.
abbrev pub IsValid : Subcommand → Type 0
IsValid (hover file line col) = IsPosition line × IsPosition col
IsValid (complete file line col dot eol no_stdlib) =
    IsPosition line × ((dot && eol) ≡ false) × IsColumn dot eol col
IsValid (diagnose file only) = AreNames only
IsValid (find name) = Unit
IsValid (refs name exclude_imports context) = Unit
IsValid index = Unit
IsValid (tokens file cst_only resolve phases show_tree) = Unit
IsValid (tree file) = Unit
IsValid sources = Unit
IsValid (extract_sources gradle_home output dry_run patterns) = Unit
IsValid (check files) = Unit
IsValid (missing_imports root) = Unit
IsValid (unused_imports root) = Unit
IsValid (resolution_accuracy root) = Unit

abbrev Anything {ℓ} : {A : Type ℓ} → A → Type 0
Anything a = Unit

and_true_left : (b : Bool) → (true && b) ≡ b
and_true_left b = refl

positive-Gives : (s e z : Text) → Gives IsPosition (positive s e z)
unfolding positive
positive-Gives s e z = elim (Option-cases (parse_u32 s)) [
  | inl none_ ↦ rw none_ tt
  | inr (n, some_) ↦ elim (Bool-cases (n == 0)) [
    | inl zero_ ↦ rw (some_, zero_) tt
    | inr other ↦ rw (some_, other) (ground (arith, other), parse_u32-lt n s some_)
  ]
]

next_positional-Gives : (ps : List Text) (e : Text) → Gives Anything (next_positional ps e)
unfolding next_positional
next_positional-Gives [] e = tt
next_positional-Gives (p ∷ ps) e = tt

first_positional-Gives : (ps : List Text) (e : Text) → Gives Anything (first_positional ps e)
unfolding first_positional next_positional
first_positional-Gives [] e = tt
first_positional-Gives (p ∷ ps) e = tt

place-Gives :
    (ps : List Text) (name : Text)
    → Gives (λ r. IsPosition r.1 × IsPosition r.2) (parse_file_line_col ps name)
unfolding parse_file_line_col next_positional
place-Gives [] name = tt
place-Gives (f ∷ []) name = tt
place-Gives (f ∷ l ∷ []) name =
    Gives->>= IsPosition (λ r. IsPosition r.1 × IsPosition r.2) (positive l line_error line_zero)
      (λ line. err (name ++ codes " requires COL argument")) (positive-Gives l line_error line_zero)
      (λ line h. tt)
place-Gives (f ∷ l ∷ c ∷ ps) name =
    Gives->>= IsPosition (λ r. IsPosition r.1 × IsPosition r.2) (positive l line_error line_zero)
      (λ line. positive c col_error col_zero >>= λ col. ok (f, line, col))
      (positive-Gives l line_error line_zero)
      (λ line h.
        Gives->>= IsPosition (λ r. IsPosition r.1 × IsPosition r.2) (positive c col_error col_zero)
          (λ col. ok (f, line, col)) (positive-Gives c col_error col_zero) (λ col k. (h, k)))

hover-Gives : (ps : List Text) → Gives IsValid (build_hover_subcommand ps)
unfolding build_hover_subcommand
hover-Gives ps =
    Gives->>= (λ r. IsPosition r.1 × IsPosition r.2) IsValid
      (parse_file_line_col ps (codes "hover")) (λ r. ok (hover r.0 r.1 r.2))
      (place-Gives ps (codes "hover")) (λ r h. h)

optional_col-Gives :
    (ps : List Text) (dot eol : Bool) → Gives (IsColumn dot eol) (optional_col ps dot eol)
unfolding optional_col
optional_col-Gives [] dot eol = ground arith
optional_col-Gives (s ∷ ps) dot eol =
    Gives->>= IsPosition (IsColumn dot eol) (positive s col_error col_zero) (λ c. ok (some c))
      (positive-Gives s col_error col_zero) (λ c h. h)

guard-Gives : (b : Bool) (e : Text) → Gives (λ x. b ≡ false) (guard (not b) e)
guard-Gives true e = tt
guard-Gives false e = refl

complete-Gives :
    (ps : List Text) (dot eol no_stdlib : Bool)
    → Gives IsValid (build_complete_subcommand ps dot eol no_stdlib)
unfolding build_complete_subcommand next_positional
complete-Gives [] dot eol n = tt
complete-Gives (f ∷ []) dot eol n = tt
complete-Gives (f ∷ l ∷ ps) dot eol n =
    Gives->>= IsPosition IsValid (positive l line_error line_zero)
      (λ line.
        guard (not (dot && eol)) (codes "--dot and --eol are mutually exclusive") >>= λ exclusive.
        optional_col ps dot eol >>= λ col. ok (complete f line col dot eol n))
      (positive-Gives l line_error line_zero)
      (λ line h.
        Gives->>= (λ x. (dot && eol) ≡ false) IsValid
          (guard (not (dot && eol)) (codes "--dot and --eol are mutually exclusive"))
          (λ exclusive. optional_col ps dot eol >>= λ col. ok (complete f line col dot eol n))
          (guard-Gives (dot && eol) (codes "--dot and --eol are mutually exclusive"))
          (λ x apart.
            Gives->>= (IsColumn dot eol) IsValid (optional_col ps dot eol)
              (λ col. ok (complete f line col dot eol n)) (optional_col-Gives ps dot eol)
              (λ col k. (h, apart, k))))

validate-Gives :
    (names : List Text)
    → Gives (λ valid. all is_diagnostic_name names ≡ true) (validate_diagnostic_names names)
unfolding validate_diagnostic_names
validate-Gives [] = refl
validate-Gives (name ∷ names) = elim (Bool-cases (is_diagnostic_name name)) [
  | inl e ↦ rw (e, and_true_left (all is_diagnostic_name names)) (validate-Gives names)
  | inr e ↦ rw e tt
]

diagnose-Gives :
    (only : Option (List Text)) (first : Outcome Text)
    → Gives Anything first
    → Gives IsValid (build_diagnose only first)
diagnose-Gives none (ok f) h = tt
diagnose-Gives (some names) (ok f) h =
    Gives->>= (λ valid. all is_diagnostic_name names ≡ true) IsValid
      (validate_diagnostic_names names) (λ valid. ok (diagnose f (some names)))
      (validate-Gives names) (λ valid k. k)
diagnose-Gives only (err e) h = tt
diagnose-Gives only (exits x) h = tt
diagnose-Gives only panics h = absurd h

map_ok-Gives :
    (f : Text → Subcommand) (m : Outcome Text)
    → ((t : Text) → IsValid (f t))
    → Gives Anything m
    → Gives IsValid (map_ok f m)
map_ok-Gives f m v h = Gives->>= Anything IsValid m (λ t. ok (f t)) h (λ t u. v t)

-- A subcommand that is built is valid, and every name of a subcommand has a way to build it: the
-- code that is marked unreachable is.
pub build_subcommand-Gives :
    (subcommand : Text) (p : ParsedCliFlags)
    → is_subcommand subcommand ≡ true
    → Gives IsValid (build_subcommand subcommand p)
unfolding build_subcommand is_subcommand arms
build_subcommand-Gives s p h =
    let ps = p.positionals in
    let named = first_positional-Gives ps in
    choose-contains (Gives IsValid) s panics (arms p)
      (
        map_ok-Gives find _ (λ t. tt) (named _),
        (
          map_ok-Gives _ _ (λ t. tt) (named _),
          (
            hover-Gives ps,
            (
              complete-Gives ps p.dot p.eol p.no_stdlib,
              (
                tt,
                (
                  map_ok-Gives _ _ (λ t. tt) (named _),
                  (
                    map_ok-Gives tree _ (λ t. tt) (named _),
                    (diagnose-Gives p.only _ (named _), (tt, (tt, (tt, (tt, (tt, (tt, tt))))))),
                  ),
                ),
              ),
            ),
          ),
        ),
      )
      h
