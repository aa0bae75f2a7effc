-- ===== src/Cli/Tests.antt =====
-- Runs of the command line's parser.
use kmp_lsp.Base.{◌<◌, ◌≤◌, ◌≡◌, ◌↔◌, refl, false, Option, none, some, List, [], ◌∷◌, arith, length}
use kmp_lsp.Text.{Text, codes, split, trim, trim_start, trim_end, is_whitespace}
use kmp_lsp.Cli.Outcome.{Outcome, ok, choose}
use kmp_lsp.Cli.Flags.{
  Lexopt, Arg, short, long, value_, Next, finished, got, Value, missing, given, is_subcommand,
  parse_first_argument, parse_subcommand_name, parse_cli_flags, action, long_action, only_names,
  auto, json,
}
use kmp_lsp.Cli.Build.{
  CliArgs, diagnose, parse, build_subcommand, arms, first_positional, next_positional,
  parse_file_line_col, validate_diagnostic_names, is_diagnostic_name,
}
use kmp_lsp.Cli.Accepted.{Gives}
use kmp_lsp.Cli.Ends.{IsAccepted, parse-Ends}
use kmp_lsp.Cli.Place.{Place, parse_file_line_col_iff}

-- A parser of arguments that are split already.
next_of : List Arg → Next (List Arg)
next_of [] = finished
next_of (a ∷ as_) = got a as_

value_of : List Arg → Value (List Arg)
value_of [] = missing (codes "missing argument")
value_of (value_ v ∷ as_) = given v as_
value_of (short c ∷ as_) = missing (codes "missing argument")
value_of (long f ∷ as_) = missing (codes "missing argument")

next_shrinks : (s s' : List Arg) (a : Arg) → next_of s ≡ got a s' → length s' < length s
unfolding next_of
next_shrinks [] s' a h = cc
next_shrinks (b ∷ s) s' a h = ground (arith, h)

value_shrinks : (s s' : List Arg) (v : Text) → value_of s ≡ given v s' → length s' ≤ length s
unfolding value_of
value_shrinks [] s' v h = cc
value_shrinks (value_ w ∷ s) s' v h = ground (arith, h)
value_shrinks (short c ∷ s) s' v h = cc
value_shrinks (long f ∷ s) s' v h = cc

abbrev words : Lexopt
words = record {
  Parser = List Arg;
  next = next_of;
  value = value_of;
  remaining = length;
  next-remaining = next_shrinks;
  value-remaining = value_shrinks;
}

abbrev diagnosing : List Arg
diagnosing =
    value_ (codes "diagnose")
    ∷ long (codes "only")
    ∷ value_ (codes " when,syntax ")
    ∷ value_ (codes "A.kt")
    ∷ long (codes "json")
    ∷ []

diagnosed :
    parse words 6 diagnosing
    ≡ some (
        ok (
          some (record {
            subcommand = diagnose (codes "A.kt") (some (codes "when" ∷ codes "syntax" ∷ []));
            mode = auto;
            fmt = json;
            root = none;
            verbose = false;
          })))
unfolding parse parse_first_argument next_of value_of parse_subcommand_name is_subcommand
    parse_cli_flags action long_action choose only_names build_subcommand arms first_positional
    next_positional validate_diagnostic_names is_diagnostic_name split trim trim_start trim_end
    is_whitespace
diagnosed = refl

parse-Ends_example :
    (o : Outcome (Option CliArgs)) × (parse words 6 diagnosing ≡ some o)
    × Gives (IsAccepted words) o
parse-Ends_example = parse-Ends words 6 diagnosing (omega arith)

parse_file_line_col_iff_example :
    (parse_file_line_col (codes "A.kt" ∷ codes "3" ∷ codes "+7" ∷ []) (codes "hover")
      ≡ ok (codes "A.kt", 3, 7))
    ↔ Place (codes "A.kt" ∷ codes "3" ∷ codes "+7" ∷ []) (codes "A.kt") 3 7
parse_file_line_col_iff_example =
    parse_file_line_col_iff (codes "A.kt" ∷ codes "3" ∷ codes "+7" ∷ []) (codes "hover")
      (codes "A.kt") 3 7
