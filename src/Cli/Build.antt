-- ===== src/Cli/Build.antt =====
-- The subcommands: the second half of cli/args.rs.
use kmp_lsp.Base.{
  ℕ, Bool, true, false, not, ◌&&◌, Option, none, some, List, [], ◌∷◌, ◌++◌, map, String, ◌==◌,
  if◌then◌else◌, head?,
}
use kmp_lsp.Text.{Text, codes, contains, join}
use kmp_lsp.Cli.Outcome.{Outcome, ok, err, exits, panics, ◌>>=◌, choose}
use kmp_lsp.Cli.Flags.{
  Mode, OutputFmt, ParsedCliFlags, no_flags, Lexopt, or_err, parse_u32, parse_first_argument,
  parse_subcommand_name, parse_cli_flags,
}

pub data Subcommand : Type 0 where
  find : (name : Text) → Subcommand
  refs : (name : Text) (exclude_imports : Bool) (context : Option ℕ) → Subcommand
  hover : (file : Text) (line col : ℕ) → Subcommand
  complete : (file : Text) (line : ℕ) (col : Option ℕ) (dot eol no_stdlib : Bool) → Subcommand
  index : Subcommand
  tokens : (file : Text) (cst_only resolve phases show_tree : Bool) → Subcommand
  tree : (file : Text) → Subcommand
  diagnose : (file : Text) (only : Option (List Text)) → Subcommand
  sources : Subcommand
  extract_sources :
      (gradle_home output : Option Text) (dry_run : Bool) (patterns : List Text) → Subcommand
  check : (files : List Text) → Subcommand
  missing_imports unused_imports resolution_accuracy : (root : Option Text) → Subcommand

pub record CliArgs : Type 0 where
  pub subcommand : Subcommand
  pub mode : Mode
  pub fmt : OutputFmt
  pub root : Option Text
  pub verbose : Bool

abbrev pub guard : Bool → Text → Outcome (Unit {0})
guard true e = ok tt
guard false e = err e

abbrev pub line_error : Text
line_error = codes "LINE must be a positive integer"

abbrev pub col_error : Text
col_error = codes "COL must be a positive integer"

-- A position that is parsed and counts from one.
unfoldable pub positive : Text → Text → Text → Outcome ℕ
positive s malformed zero_message = do
  n ← or_err (parse_u32 s) malformed
  guard (not (n == 0)) zero_message >>= λ ok_. ok n

abbrev pub line_zero : Text
line_zero = codes "LINE must be >= 1 (positions are 1-based)"

abbrev pub col_zero : Text
col_zero = codes "COL must be >= 1 (positions are 1-based)"

-- The iterator over the positionals, one after the other.
unfoldable pub next_positional : List Text → Text → Outcome (Text × List Text)
next_positional [] e = err e
next_positional (p ∷ ps) e = ok (p, ps)

unfoldable pub first_positional : List Text → Text → Outcome Text
unfolding next_positional
first_positional ps e = next_positional ps e >>= λ r. ok (r.0)

unfoldable pub parse_file_line_col : List Text → Text → Outcome (Text × ℕ × ℕ)
parse_file_line_col positionals name = do
  (file, ps) ← next_positional positionals (name ++ codes " requires FILE LINE COL arguments")
  (l, ps') ← next_positional ps (name ++ codes " requires LINE argument")
  line ← positive l line_error line_zero
  (c, ps'') ← next_positional ps' (name ++ codes " requires COL argument")
  col ← positive c col_error col_zero
  ok (file, line, col)

unfoldable pub build_hover_subcommand : List Text → Outcome Subcommand
build_hover_subcommand positionals =
    parse_file_line_col positionals (codes "hover") >>= λ r. ok (hover r.0 r.1 r.2)

unfoldable pub optional_col : List Text → Bool → Bool → Outcome (Option ℕ)
optional_col (s ∷ ps) dot eol = positive s col_error col_zero >>= λ c. ok (some c)
optional_col [] dot eol =
    if not dot && not eol
    then err (codes "complete requires a COL argument (or use --dot / --eol)")
    else ok none

unfoldable pub build_complete_subcommand : List Text → Bool → Bool → Bool → Outcome Subcommand
build_complete_subcommand positionals dot eol no_stdlib = do
  (file, ps) ← next_positional positionals (codes "complete requires a FILE argument")
  (l, ps') ← next_positional ps (codes "complete requires a LINE argument")
  line ← positive l line_error line_zero
  exclusive ← guard (not (dot && eol)) (codes "--dot and --eol are mutually exclusive")
  col ← optional_col ps' dot eol
  ok (complete file line col dot eol no_stdlib)

abbrev pub diagnostic_names : List Text
diagnostic_names = map codes ("syntax" ∷ "call-arg" ∷ "nullable" ∷ "when" ∷ "missing-import" ∷ [])

unfoldable pub is_diagnostic_name : Text → Bool
is_diagnostic_name name = contains diagnostic_names name

unfoldable pub validate_diagnostic_names : List Text → Outcome (Unit {0})
validate_diagnostic_names [] = ok tt
validate_diagnostic_names (name ∷ names) =
    let rest = validate_diagnostic_names names in
    if is_diagnostic_name name
    then rest
    else err (
        codes "unknown diagnostic name '"
        ++ name
        ++ codes "' — valid names: "
        ++ join (codes ", ") diagnostic_names)

abbrev pub validate_only : Option (List Text) → Outcome (Unit {0})
validate_only none = ok tt
validate_only (some names) = validate_diagnostic_names names

abbrev pub build_diagnose : Option (List Text) → Outcome Text → Outcome Subcommand
build_diagnose only first = do file ← first; valid ← validate_only only; ok (diagnose file only)

abbrev pub map_ok {ℓ κ} : {A : Type ℓ} {B : Type κ} → (A → B) → Outcome A → Outcome B
map_ok f m = m >>= λ a. ok (f a)

unfoldable pub arms : ParsedCliFlags → List (String × Outcome Subcommand)
arms p =
    ("find", map_ok find (first_positional p.positionals (codes "find requires a NAME argument")))
    ∷ (
      "refs",
      map_ok (λ n. refs n p.exclude_imports p.context)
          (first_positional p.positionals (codes "refs requires a NAME argument")),
    )
    ∷ ("hover", build_hover_subcommand p.positionals)
    ∷ ("complete", build_complete_subcommand p.positionals p.dot p.eol p.no_stdlib)
    ∷ ("index", ok index)
    ∷ (
      "tokens",
      map_ok (λ f. tokens f p.cst_only p.resolve p.phases p.show_tree)
          (first_positional p.positionals (codes "tokens requires a FILE argument")),
    )
    ∷ ("tree", map_ok tree (first_positional p.positionals (codes "tree requires a FILE argument")))
    ∷ (
      "diagnose",
      build_diagnose p.only
          (first_positional p.positionals (codes "diagnose requires a FILE argument")),
    )
    ∷ ("sources", ok sources)
    ∷ ("extract-sources", ok (extract_sources p.gradle_home p.output_dir p.dry_run p.positionals))
    ∷ ("check", ok (check p.positionals))
    ∷ ("missing-imports", ok (missing_imports (head? p.positionals)))
    ∷ ("unused-imports", ok (unused_imports (head? p.positionals)))
    ∷ ("resolution-accuracy", ok (resolution_accuracy (head? p.positionals)))
    ∷ []

unfoldable pub build_subcommand : Text → ParsedCliFlags → Outcome Subcommand
build_subcommand subcommand p = choose subcommand (arms p) panics

abbrev pub args_of : Text → ParsedCliFlags → Outcome (Option CliArgs)
args_of subcommand p = build_subcommand subcommand p >>= λ s. ok (
    some
      (record { subcommand = s; mode = p.mode; fmt = p.fmt; root = p.root; verbose = p.verbose }))

abbrev pub with_flags : Text → Option (Outcome ParsedCliFlags) → Option (Outcome (Option CliArgs))
with_flags subcommand none = none
with_flags subcommand (some o) = some (o >>= args_of subcommand)

module _ (l : Lexopt) where
  abbrev pub with_subcommand : ℕ → Option Text → l.Parser → Option (Outcome (Option CliArgs))
  with_subcommand fuel none args = some (ok none)
  with_subcommand fuel (some subcommand) args =
      with_flags subcommand (parse_cli_flags l fuel args no_flags)

  abbrev pub with_first : ℕ → Outcome (Option (Text × l.Parser)) → Option (Outcome (Option CliArgs))
  with_first fuel (ok none) = some (ok none)
  with_first fuel (ok (some (first, args))) =
      with_subcommand fuel (parse_subcommand_name first) args
  with_first fuel (err e) = some (err e)
  with_first fuel (exits x) = some (exits x)
  with_first fuel panics = some panics

  -- `CliArgs::parse`; `none` where the fuel runs out.
  unfoldable pub parse : ℕ → l.Parser → Option (Outcome (Option CliArgs))
  parse fuel args = with_first fuel (parse_first_argument l args)
