-- ===== src/Cli/Flags.antt =====
-- The flags: the first half of cli/args.rs, over a parser of the lexopt crate.
use kmp_lsp.Base.{
  ℕ, zero, suc, ◌+◌, ◌-◌, ◌*◌, ◌^◌, ◌<◌, ◌≤◌, ◌≡◌, Bool, true, false, not, ◌&&◌, Option, none, some,
  List, [], ◌∷◌, ◌++◌, map, String, ltb, ◌==◌, if◌then◌else◌, is_empty, any, keep,
}
use kmp_lsp.Text.{Text, codes, text_eq, is_ascii_digit, split, trim}
use kmp_lsp.Cli.Outcome.{help, version, Outcome, ok, err, exits, panics, ◌>>=◌, choose}

pub data Mode : Type 0 where
  auto fast smart : Mode

pub data OutputFmt : Type 0 where
  text json : OutputFmt

pub record ParsedCliFlags : Type 0 where
  pub mode : Mode
  pub fmt : OutputFmt
  pub root : Option Text
  pub positionals : List Text
  pub cst_only : Bool
  pub resolve : Bool
  pub phases : Bool
  pub show_tree : Bool
  pub verbose : Bool
  pub gradle_home : Option Text
  pub output_dir : Option Text
  pub dry_run : Bool
  pub dot : Bool
  pub eol : Bool
  pub no_stdlib : Bool
  pub exclude_imports : Bool
  pub context : Option ℕ
  pub only : Option (List Text)

abbrev pub no_flags : ParsedCliFlags
no_flags = record {
  mode = auto;
  fmt = text;
  root = none;
  positionals = [];
  cst_only = false;
  resolve = false;
  phases = false;
  show_tree = false;
  verbose = false;
  gradle_home = none;
  output_dir = none;
  dry_run = false;
  dot = false;
  eol = false;
  no_stdlib = false;
  exclude_imports = false;
  context = none;
  only = none;
}

-- The lexopt crate: `next` and `value` of a parser, each error by its text. `remaining` bounds the
-- arguments that are left.
pub data Arg : Type 0 where
  short : ℕ → Arg
  long value_ : Text → Arg

pub data Next (S : Type 0) : Type 0 where
  failed : Text → Next S
  finished : Next S
  got : Arg → S → Next S

pub data Value (S : Type 0) : Type 0 where
  missing : Text → Value S
  given : Text → S → Value S

pub record Lexopt : Type 1 where
  pub Parser : Type 0
  pub next : Parser → Next Parser
  pub value : Parser → Value Parser
  pub remaining : Parser → ℕ
  pub next-remaining : (s s' : Parser) (a : Arg) → next s ≡ got a s' → remaining s' < remaining s
  pub value-remaining :
      (s s' : Parser) (v : Text) → value s ≡ given v s' → remaining s' ≤ remaining s

-- `str::parse::<u32>`: decimal digits behind at most one `+`, below 2^32.
abbrev pub digits_from : ℕ → Text → Option ℕ
digits_from n [] = some n
digits_from n (c ∷ s) =
    let rest = digits_from (10 * n + (c - b'0')) s in
    if is_ascii_digit c && ltb (10 * n + (c - b'0')) (2 ^ 32) then rest else none

abbrev pub digits : Text → Option ℕ
digits [] = none
digits (c ∷ s) = digits_from 0 (c ∷ s)

unfoldable pub parse_u32 : Text → Option ℕ
parse_u32 [] = none
parse_u32 (c ∷ s) = if c == b'+' then digits s else digits (c ∷ s)

abbrev pub or_err {ℓ} : {A : Type ℓ} → Option A → Text → Outcome A
or_err none e = err e
or_err (some a) e = ok a

-- What an argument asks for: new flags, a value and then new flags, or the end.
pub data Action : Type 0 where
  sets : ParsedCliFlags → Action
  wants : (Text → Outcome ParsedCliFlags) → Action
  ends : Outcome ParsedCliFlags → Action

abbrev is_comma : ℕ → Bool
is_comma c = c == b','

unfoldable pub only_names : Text → List Text
only_names v = keep (λ n. not (is_empty n)) (map trim (split is_comma v))

abbrev pub context_of : ParsedCliFlags → Text → Outcome ParsedCliFlags
context_of p v = or_err (parse_u32 v) (codes "--context requires a non-negative integer") >>= λ n.
    ok (record p { context = some n })

unfoldable pub long_action : Text → ParsedCliFlags → Action
long_action flag p =
    choose flag
      (("fast", sets (record p { mode = fast }))
        ∷ ("smart", sets (record p { mode = smart }))
        ∷ ("json", sets (record p { fmt = json }))
        ∷ ("cst-only", sets (record p { cst_only = true }))
        ∷ ("resolve", sets (record p { resolve = true }))
        ∷ ("phases", sets (record p { phases = true }))
        ∷ ("tree", sets (record p { show_tree = true }))
        ∷ ("verbose", sets (record p { verbose = true }))
        ∷ ("root", wants (λ v. ok (record p { root = some v })))
        ∷ ("gradle-home", wants (λ v. ok (record p { gradle_home = some v })))
        ∷ ("output", wants (λ v. ok (record p { output_dir = some v })))
        ∷ ("dry-run", sets (record p { dry_run = true }))
        ∷ ("dot", sets (record p { dot = true }))
        ∷ ("eol", sets (record p { eol = true }))
        ∷ ("no-stdlib", sets (record p { no_stdlib = true }))
        ∷ ("exclude-imports", sets (record p { exclude_imports = true }))
        ∷ ("context", wants (context_of p))
        ∷ ("only", wants (λ v. ok (record p { only = some (only_names v) })))
        ∷ ("help", ends (exits help))
        ∷ ("version", ends (exits version))
        ∷ [])
      (ends (err (codes "Unknown flag: --" ++ flag)))

unfoldable pub action : Arg → ParsedCliFlags → Action
action (short c) p =
    if c == b'v'
    then sets (record p { verbose = true })
    else if c == b'd'
    then sets (record p { dot = true })
    else if c == b'e'
    then sets (record p { eol = true })
    else if c == b'C'
    then wants (context_of p)
    else if c == b'h'
    then ends (exits help)
    else if c == b'V'
    then ends (exits version)
    else ends (err (codes "Unknown short flag: -" ++ c ∷ []))
action (long flag) p = long_action flag p
action (value_ v) p = sets (record p { positionals = p.positionals ++ v ∷ [] })

abbrev pub subcommands : List String
subcommands =
    "find" ∷ "refs" ∷ "hover" ∷ "complete" ∷ "index" ∷ "tokens" ∷ "tree" ∷ "diagnose" ∷ "sources"
    ∷ "extract-sources" ∷ "check" ∷ "missing-imports" ∷ "unused-imports" ∷ "resolution-accuracy"
    ∷ []

unfoldable pub is_subcommand : Text → Bool
is_subcommand value = any (λ name. text_eq value (codes name)) subcommands

module _ (l : Lexopt) where
  abbrev pub Continue : Type 0
  Continue = l.Parser → ParsedCliFlags → Option (Outcome ParsedCliFlags)

  abbrev pub resume : Continue → l.Parser → Outcome ParsedCliFlags → Option (Outcome ParsedCliFlags)
  resume go args (ok parsed) = go args parsed
  resume go args (err e) = some (err e)
  resume go args (exits x) = some (exits x)
  resume go args panics = some panics

  abbrev pub with_value :
      Continue → (Text → Outcome ParsedCliFlags) → Value l.Parser → Option (Outcome ParsedCliFlags)
  with_value go f (missing e) = some (err e)
  with_value go f (given v args) = resume go args (f v)

  abbrev pub act : Continue → l.Parser → Action → Option (Outcome ParsedCliFlags)
  act go args (sets parsed) = go args parsed
  act go args (wants f) = with_value go f (l.value args)
  act go args (ends o) = some o

  abbrev pub on_next : Continue → ParsedCliFlags → Next l.Parser → Option (Outcome ParsedCliFlags)
  on_next go parsed (failed e) = some (err e)
  on_next go parsed finished = some (ok parsed)
  on_next go parsed (got a args) = act go args (action a parsed)

  -- `none` where the fuel runs out.
  unfoldable pub parse_cli_flags : ℕ → l.Parser → ParsedCliFlags → Option (Outcome ParsedCliFlags)
  parse_cli_flags zero args parsed = none
  parse_cli_flags (suc fuel) args parsed = on_next (parse_cli_flags fuel) parsed (l.next args)

  -- The first argument with what is left, or none where the server is to be started.
  abbrev pub first_of : Next l.Parser → Outcome (Option (Text × l.Parser))
  first_of (failed e) = err e
  first_of finished = ok none
  first_of (got (value_ v) args) = ok (some (v, args))
  first_of (got (short c) args) =
      if c == b'h' then exits help else if c == b'V' then exits version else ok none
  first_of (got (long flag) args) =
      if text_eq flag (codes "help")
      then exits help
      else if text_eq flag (codes "version")
      then exits version
      else if is_subcommand flag
      then err (
          codes "'"
          ++ flag
          ++ codes "' is a subcommand, not a flag — use `kmp-lsp "
          ++ flag
          ++ codes "` (without --)")
      else ok none

  unfoldable pub parse_first_argument : l.Parser → Outcome (Option (Text × l.Parser))
  parse_first_argument args = first_of (l.next args)

unfoldable pub parse_subcommand_name : Text → Option Text
parse_subcommand_name first = if is_subcommand first then some first else none
