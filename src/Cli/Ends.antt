-- ===== src/Cli/Ends.antt =====
-- The parser of the command line ends, and never panics: cli/args.rs.
use kmp_lsp.Base.{
  ℕ, zero, suc, ◌<◌, ◌≡◌, refl, true, Option, none, some, ◌==◌, arith, inl, inr, Bool-cases,
  if_keep, Option-cases,
}
use kmp_lsp.Text.{Text, codes, text_eq}
use kmp_lsp.Cli.Outcome.{help, version, Outcome, ok, err, exits, panics, ◌>>=◌, choose-All}
use kmp_lsp.Cli.Flags.{
  ParsedCliFlags, no_flags, Lexopt, Next, failed, finished, got, Value, missing, given, Arg, short,
  long, value_, parse_u32, parse_first_argument, parse_subcommand_name, parse_cli_flags,
  is_subcommand, Action, sets, wants, ends, action, long_action, context_of, Continue, resume,
  with_value, act, on_next, first_of,
}
use kmp_lsp.Cli.Build.{
  CliArgs, build_subcommand, parse, args_of, with_flags, with_first, with_subcommand,
}
use kmp_lsp.Cli.Accepted.{Gives, Gives->>=, IsValid, build_subcommand-Gives}

abbrev Anything {ℓ} : {A : Type ℓ} → A → Type 0
Anything a = Unit

-- What an argument asks for does not panic.
abbrev IsFine : Action → Type 0
IsFine (sets p) = Unit
IsFine (wants f) = (v : Text) → Gives Anything (f v)
IsFine (ends o) = Gives Anything o

context_of-Gives : (p : ParsedCliFlags) (v : Text) → Gives Anything (context_of p v)
context_of-Gives p v = elim (Option-cases (parse_u32 v)) [ inl e ↦ rw e tt | inr (n, e) ↦ rw e tt ]

long_action-IsFine : (flag : Text) (p : ParsedCliFlags) → IsFine (long_action flag p)
unfolding long_action
long_action-IsFine flag p =
    choose-All IsFine flag _ _
      (
        tt,
        (
          tt,
          (
            tt,
            (
              tt,
              (
                tt,
                (
                  tt,
                  (
                    tt,
                    (
                      tt,
                      (
                        λ v. tt,
                        (
                          λ v. tt,
                          (
                            λ v. tt,
                            (
                              tt,
                              (
                                tt,
                                (tt, (tt, (tt, (context_of-Gives p, (λ v. tt, (tt, (tt, tt))))))),
                              ),
                            ),
                          ),
                        ),
                      ),
                    ),
                  ),
                ),
              ),
            ),
          ),
        ),
      )
      tt

action-IsFine : (a : Arg) (p : ParsedCliFlags) → IsFine (action a p)
unfolding action
action-IsFine (short c) p = if_keep IsFine (c == b'v') _ _ tt (
    if_keep IsFine (c == b'd') _ _ tt (
      if_keep IsFine (c == b'e') _ _ tt (
        if_keep IsFine (c == b'C') _ _ (context_of-Gives p)
          (if_keep IsFine (c == b'h') _ _ tt (if_keep IsFine (c == b'V') _ _ tt tt)))))
action-IsFine (long flag) p = long_action-IsFine flag p
action-IsFine (value_ v) p = tt

-- There is a result, and it is no panic.
abbrev Ends {ℓ} : {A : Type ℓ} → (A → Type 0) → Option (Outcome A) → Type ℓ
Ends {A} Q r = (o : Outcome A) × (r ≡ some o) × Gives Q o

module _ (l : Lexopt) where
  -- The rest of the arguments, behind those of a parser with so many left.
  abbrev GoesOn : ℕ → Continue l → Type 0
  GoesOn n go =
      (args : l.Parser) (p : ParsedCliFlags) → l.remaining args < n → Ends Anything (go args p)

  resume-Ends :
      (n : ℕ) (go : Continue l) (args : l.Parser) (o : Outcome ParsedCliFlags)
      → GoesOn n go
      → l.remaining args < n
      → Gives Anything o
      → Ends Anything (resume l go args o)
  resume-Ends n go args (ok p) k lt g = k args p lt
  resume-Ends n go args (err e) k lt g = (err e, refl, tt)
  resume-Ends n go args (exits x) k lt g = (exits x, refl, tt)
  resume-Ends n go args panics k lt g = absurd g

  with_value-Ends :
      (n : ℕ) (go : Continue l) (args : l.Parser) (f : Text → Outcome ParsedCliFlags)
      (r : Value l.Parser)
      → l.value args ≡ r
      → GoesOn n go
      → l.remaining args < n
      → ((v : Text) → Gives Anything (f v))
      → Ends Anything (with_value l go f r)
  with_value-Ends n go args f (missing e) q k lt g = (err e, refl, tt)
  with_value-Ends n go args f (given v args') q k lt g =
      resume-Ends n go args' (f v) k (omega (arith, l.value-remaining args args' v q, lt)) (g v)

  act-Ends :
      (n : ℕ) (go : Continue l) (args : l.Parser) (a : Action)
      → GoesOn n go
      → l.remaining args < n
      → IsFine a
      → Ends Anything (act l go args a)
  act-Ends n go args (sets p) k lt g = k args p lt
  act-Ends n go args (wants f) k lt g = with_value-Ends n go args f (l.value args) refl k lt g
  act-Ends n go args (ends o) k lt g = (o, refl, g)

  on_next-Ends :
      (n : ℕ) (go : Continue l) (args : l.Parser) (p : ParsedCliFlags) (r : Next l.Parser)
      → l.next args ≡ r
      → GoesOn n go
      → l.remaining args < suc n
      → Ends Anything (on_next l go p r)
  on_next-Ends n go args p (failed e) q k lt = (err e, refl, tt)
  on_next-Ends n go args p finished q k lt = (ok p, refl, tt)
  on_next-Ends n go args p (got a args') q k lt =
      act-Ends n go args' (action a p) k (omega (arith, l.next-remaining args args' a q, lt))
        (action-IsFine a p)

  parse_cli_flags-Ends : (n : ℕ) → GoesOn n (parse_cli_flags l n)
  unfolding parse_cli_flags
  parse_cli_flags-Ends zero args p lt = absurd (omega (arith, lt))
  parse_cli_flags-Ends (suc n) args p lt =
      on_next-Ends n (parse_cli_flags l n) args p (l.next args) refl (parse_cli_flags-Ends n) lt

  -- No subcommand starts the server; one that is returned is valid.
  abbrev pub IsAccepted : Option CliArgs → Type 0
  IsAccepted none = Unit
  IsAccepted (some a) = IsValid a.subcommand

  with_flags-Ends :
      (s : Text) (r : Option (Outcome ParsedCliFlags))
      → is_subcommand s ≡ true
      → Ends Anything r
      → Ends IsAccepted (with_flags s r)
  with_flags-Ends s r h (o, q, g) = rw q (
    o >>= args_of s,
    refl,
    Gives->>= Anything IsAccepted o (args_of s) g (λ p u.
        Gives->>= IsValid IsAccepted (build_subcommand s p) _ (build_subcommand-Gives s p h)
          (λ c v. v)),
  )

  named-Ends :
      (n : ℕ) (v : Text) (args : l.Parser)
      → l.remaining args < n
      → Ends IsAccepted (with_subcommand l n (parse_subcommand_name v) args)
  unfolding parse_subcommand_name
  named-Ends n v args lt = elim (Bool-cases (is_subcommand v)) [
    | inl e ↦ rw e (
        with_flags-Ends v (parse_cli_flags l n args no_flags) e
          (parse_cli_flags-Ends n args no_flags lt))
    | inr e ↦ rw e (ok none, refl, tt)
  ]

  with_first-Ends :
      (n : ℕ) (r : Next l.Parser) (args : l.Parser)
      → l.next args ≡ r
      → l.remaining args < n
      → Ends IsAccepted (with_first l n (first_of l r))
  with_first-Ends n (failed e) args q lt = (err e, refl, tt)
  with_first-Ends n finished args q lt = (ok none, refl, tt)
  with_first-Ends n (got (value_ v) args') args q lt =
      named-Ends n v args' (omega (arith, l.next-remaining args args' (value_ v) q, lt))
  with_first-Ends n (got (short c) args') args q lt =
      let P : Outcome (Option (Text × l.Parser)) → Type 0 =
        λ o. Ends IsAccepted (with_first l n o) in
      if_keep P (c == b'h') _ _ (exits help, refl, tt)
        (if_keep P (c == b'V') _ _ (exits version, refl, tt) (ok none, refl, tt))
  with_first-Ends n (got (long flag) args') args q lt =
      let P : Outcome (Option (Text × l.Parser)) → Type 0 =
        λ o. Ends IsAccepted (with_first l n o) in
      if_keep P (text_eq flag (codes "help")) _ _ (exits help, refl, tt)
        (if_keep P (text_eq flag (codes "version")) _ _ (exits version, refl, tt)
          (if_keep P (is_subcommand flag) _ _ (err _, refl, tt) (ok none, refl, tt)))

  -- With fuel above the arguments that are left the parser returns, and what it returns is no
  -- panic: an error, the exit after the help or the version, no subcommand, or a subcommand whose
  -- numbers, column and names are valid.
  pub parse-Ends :
      (fuel : ℕ) (args : l.Parser)
      → l.remaining args < fuel
      → (o : Outcome (Option CliArgs)) × (parse l fuel args ≡ some o) × Gives IsAccepted o
  unfolding parse parse_first_argument
  parse-Ends fuel args lt = with_first-Ends fuel (l.next args) args refl lt
