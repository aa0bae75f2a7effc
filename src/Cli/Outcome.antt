-- ===== src/Cli/Outcome.antt =====
-- Results of the command line's parser, and its matches on texts: cli/args.rs.
use kmp_lsp.Base.{
  ◌≡◌, true, inl, inr, List, [], ◌∷◌, String, if◌then◌else◌, Bool-cases, All, any, if_keep,
}
use kmp_lsp.Text.{Text, codes, text_eq}

-- What `CliArgs::parse` comes to: a value, an error's message, a call of `process::exit(0)` after
-- the help or the version was printed, or a panic.
pub data Exit : Type 0 where
  help version : Exit

pub data Outcome {ℓ} (A : Type ℓ) : Type ℓ where
  ok : A → Outcome A
  err : Text → Outcome A
  exits : Exit → Outcome A
  panics : Outcome A

infixl 5 ◌>>=◌
abbrev pub ◌>>=◌ {ℓ κ} : {A : Type ℓ} {B : Type κ} → Outcome A → (A → Outcome B) → Outcome B
ok a >>= f = f a
err e >>= f = err e
exits x >>= f = exits x
panics >>= f = panics

-- A `match` on a text: the first arm that fits, or the catch-all.
unfoldable pub choose {ℓ} : {A : Type ℓ} → Text → List (String × A) → A → A
choose s [] other = other
choose s ((name, a) ∷ arms) other =
    let rest = choose s arms other in if text_eq s (codes name) then a else rest

module _ {ℓ} {A : Type ℓ} (P : A → Type 0) (s : Text) (other : A) where
  -- What holds of every arm holds of the match, if it holds of the catch-all.
  pub choose-All :
      (arms : List (String × A)) → All (λ arm. P arm.1) arms → P other → P (choose s arms other)
  unfolding choose
  choose-All [] h o = o
  choose-All ((name, a) ∷ arms) (p, h) o =
      if_keep P (text_eq s (codes name)) a (choose s arms other) p (choose-All arms h o)

  -- The catch-all is not taken where an arm fits.
  pub choose-contains :
      (arms : List (String × A))
      → All (λ arm. P arm.1) arms
      → any (λ arm. text_eq s (codes arm.0)) arms ≡ true
      → P (choose s arms other)
  unfolding choose
  choose-contains [] h k = cc
  choose-contains ((name, a) ∷ arms) (p, h) k = elim (Bool-cases (text_eq s (codes name))) [
    | inl e ↦ rw e p
    | inr e ↦ rw e (choose-contains arms h (rw e at k))
  ]
