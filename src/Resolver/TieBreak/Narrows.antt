-- ===== src/Resolver/TieBreak/Narrows.antt =====
-- Which candidates the tail of resolver/tie_break.rs returns.
use mathlib.Core.Path.{subst}
use kmp_lsp.Base.{
  ◌≡◌, sym, ap, ◌∙◌, Bool, true, not, Option, none, some, List, [], ◌∷◌, map, arith, inl, inr, All,
  Bool-cases, keep,
}
use kmp_lsp.Text.{Text, Unicode, contains}
use kmp_lsp.Resolver.Names.{Language, kotlin, java, swift, from_path, is_default_import_package}
use kmp_lsp.Resolver.Gradle.{GradleMeta}
use kmp_lsp.Resolver.TieBreak
use kmp_lsp.Resolver.TieBreak.{
  Url, Location, Indexer, FileData, no_data, no_dependencies_survived, narrowed,
  ModuleScopedOutcome, is_denylisted_package_prefix, is_dependency, candidate_gradle_meta,
  owning_module_dependencies, module_scoped_tie_break, ambiguity_safe_tail_with_denylist,
  import_package_tie_break, default_kotlin_import_tie_break, import_round, after_scope,
  after_denylist, unique, among, among_imports, prefer_default, scoped, or_all, outcome_of,
  location_package, in_packages,
}

module _ (P : Location → Type 0) where
  All-keep : (t : Location → Bool) (ls : List Location) → All P ls → All P (keep t ls)
  All-keep t [] h = h
  All-keep t (l ∷ ls) h = ground (arith, All-keep t ls h.1)

  All-unique : (ls : List Location) → All P ls → All P (unique ls)
  All-unique [] h = h
  All-unique (l ∷ []) h = h
  All-unique (l ∷ m ∷ ls) h = tt

  All-among :
      (ix : Indexer) (ls : List Location) (ps : List Text) → All P ls → All P (among ix ls ps)
  All-among ix ls [] h = tt
  All-among ix ls (p ∷ ps) h =
      let t : Location → Bool = λ l. in_packages (contains (p ∷ ps)) (location_package ix l) in
      All-unique (keep t ls) (All-keep t ls h)

  All-among_imports :
      (u : Unicode) (ix : Indexer) (ls : List Location) (o : Option FileData)
      → All P ls
      → All P (among_imports u ix ls o)
  All-among_imports u ix ls none h = tt
  All-among_imports u ix ls (some f) h =
      All-among ix ls (map (TieBreak.package_of_import u) f.imports) h

  All-import_tie :
      (u : Unicode) (ix : Indexer) (o : Url) (ls : List Location)
      → All P ls
      → All P (import_package_tie_break u ix o ls)
  unfolding import_package_tie_break
  All-import_tie u ix o ls h = All-among_imports u ix ls (ix.files o.as_str) h

  All-import_round :
      (u : Unicode) (ix : Indexer) (o : Url) (ls : List Location)
      → All P ls
      → All P (import_round u ix o ls)
  All-import_round u ix o [] h = All-import_tie u ix o [] h
  All-import_round u ix o (l ∷ []) h = h
  All-import_round u ix o (l ∷ m ∷ ls) h = All-import_tie u ix o (l ∷ m ∷ ls) h

  All-or_all : (ls ns : List Location) → All P ls → All P ns → All P (or_all ls ns)
  All-or_all ls [] h k = h
  All-or_all ls (n ∷ ns) h k = k

  All-prefer :
      (ix : Indexer) (ls : List Location) (l : Language) → All P ls → All P (prefer_default ix ls l)
  All-prefer ix ls kotlin h =
      let t : Location → Bool =
        λ l. in_packages is_default_import_package (location_package ix l) in
      All-or_all ls (keep t ls) h (All-keep t ls h)
  All-prefer ix ls java h = h
  All-prefer ix ls swift h = h

  All-default :
      (ix : Indexer) (o : Url) (ls : List Location)
      → All P ls
      → All P (default_kotlin_import_tie_break ix o ls)
  unfolding default_kotlin_import_tie_break
  All-default ix o ls h = All-prefer ix ls (from_path o.as_str) h

  All-rounds :
      (u : Unicode) (ix : Indexer) (o : Url) (ls : List Location)
      → All P ls
      → All P (import_round u ix o (default_kotlin_import_tie_break ix o ls))
  All-rounds u ix o ls h =
      All-import_round u ix o (default_kotlin_import_tie_break ix o ls) (All-default ix o ls h)

  -- What a narrowed outcome says, else of the candidates.
  abbrev Proved : List Location → ModuleScopedOutcome → Type 0
  Proved ls no_data = All P ls
  Proved ls no_dependencies_survived = All P ls
  Proved ls (narrowed ns) = All P ns

  All-after_scope :
      (u : Unicode) (ix : Indexer) (o : Url) (ls : List Location) (r : ModuleScopedOutcome)
      → Proved ls r
      → All P (after_scope u ix o ls r)
  All-after_scope u ix o ls no_data h = All-rounds u ix o ls h
  All-after_scope u ix o ls no_dependencies_survived h = All-rounds u ix o ls h
  All-after_scope u ix o ls (narrowed []) h = All-rounds u ix o [] h
  All-after_scope u ix o ls (narrowed (l ∷ [])) h = h
  All-after_scope u ix o ls (narrowed (l ∷ m ∷ ms)) h = All-rounds u ix o (l ∷ m ∷ ms) h

  Proved-outcome_of : (ls ns : List Location) → All P ls → All P ns → Proved ls (outcome_of ns)
  Proved-outcome_of ls [] h k = h
  Proved-outcome_of ls (n ∷ ns) h k = k

  Proved-scoped :
      (parse : Text → Option Url) (ls : List Location) (o : Option (List GradleMeta))
      → All P ls
      → Proved ls (scoped parse ls o)
  Proved-scoped parse ls none h = h
  Proved-scoped parse ls (some ds) h =
      let t : Location → Bool = λ l. is_dependency ds (candidate_gradle_meta parse l) in
      Proved-outcome_of ls (keep t ls) h (All-keep t ls h)

  All-after_denylist :
      (u : Unicode) (parse : Text → Option Url) (ix : Indexer) (o : Url) (ls : List Location)
      → All P ls
      → All P (after_denylist u parse ix o ls)
  unfolding module_scoped_tie_break
  All-after_denylist u parse ix o [] h = h
  All-after_denylist u parse ix o (l ∷ []) h = h
  All-after_denylist u parse ix o (l ∷ m ∷ ls) h =
      All-after_scope u ix o (l ∷ m ∷ ls)
        (scoped parse (l ∷ m ∷ ls) (owning_module_dependencies ix o))
        (Proved-scoped parse (l ∷ m ∷ ls) (owning_module_dependencies ix o) h)

  -- What holds of every candidate holds of what the tail returns: it invents no location.
  pub tail-All :
      (u : Unicode) (parse : Text → Option Url) (ix : Indexer) (o : Url) (ls : List Location)
      → All P ls
      → All P (ambiguity_safe_tail_with_denylist u parse ix o ls)
  unfolding ambiguity_safe_tail_with_denylist
  tail-All u parse ix o [] h = h
  tail-All u parse ix o (l ∷ []) h = h
  tail-All u parse ix o (l ∷ m ∷ ls) h =
      let t : Location → Bool = λ c. not (is_denylisted_package_prefix ix c) in
      All-after_denylist u parse ix o (keep t (l ∷ m ∷ ls)) (All-keep t (l ∷ m ∷ ls) h)

keep-All : (t : Location → Bool) (ls : List Location) → All (λ c. t c ≡ true) (keep t ls)
keep-All t [] = tt
keep-All t (l ∷ ls) =
    let ih = keep-All t ls in elim (Bool-cases (t l)) [ inl e ↦ rw e (e, ih) | inr e ↦ rw e ih ]

-- Of two candidates or more the tail never returns one whose package is on the denylist.
tail-not_denylisted :
    (u : Unicode) (parse : Text → Option Url) (ix : Indexer) (o : Url) (l m : Location)
    (ls : List Location)
    → All
        (λ c. not (is_denylisted_package_prefix ix c) ≡ true)
        (ambiguity_safe_tail_with_denylist u parse ix o (l ∷ m ∷ ls))
unfolding ambiguity_safe_tail_with_denylist
tail-not_denylisted u parse ix o l m ls =
    let t : Location → Bool = λ c. not (is_denylisted_package_prefix ix c) in
    All-after_denylist (λ c. t c ≡ true) u parse ix o (keep t (l ∷ m ∷ ls))
      (keep-All t (l ∷ m ∷ ls))

outcome_of-narrowed : (ks ns : List Location) → outcome_of ks ≡ narrowed ns → ks ≡ ns
outcome_of-narrowed [] ns e = absurd (cc)
outcome_of-narrowed (k ∷ ks) ns e = cc

narrowed-All :
    (t : Location → Bool) (fs ns : List Location)
    → outcome_of (keep t fs) ≡ narrowed ns
    → All (λ c. t c ≡ true) ns
narrowed-All t fs ns e =
    subst (λ ks. All (λ c. t c ≡ true) ks) (outcome_of-narrowed (keep t fs) ns e) (keep-All t fs)

single-All :
    (t : Location → Bool) (l : Location) (ns : List Location)
    → outcome_of (keep t (l ∷ [])) ≡ narrowed ns
    → t l ≡ true
single-All t l ns e = elim (Bool-cases (t l)) [ inl h ↦ h | inr h ↦ absurd (ground arith) ]

after_denylist-dependency :
    (u : Unicode) (parse : Text → Option Url) (ix : Indexer) (o : Url) (fs ns : List Location)
    (ds : List GradleMeta)
    → owning_module_dependencies ix o ≡ some ds
    → scoped parse fs (some ds) ≡ narrowed ns
    → All
        (λ c. is_dependency ds (candidate_gradle_meta parse c) ≡ true)
        (after_denylist u parse ix o fs)
unfolding module_scoped_tie_break
after_denylist-dependency u parse ix o [] ns ds e s = tt
after_denylist-dependency u parse ix o (l ∷ []) ns ds e s =
    (single-All (λ c. is_dependency ds (candidate_gradle_meta parse c)) l ns s, tt)
after_denylist-dependency u parse ix o (l ∷ m ∷ fs) ns ds e s =
    let t : Location → Bool = λ c. is_dependency ds (candidate_gradle_meta parse c) in
    subst (λ r. All (λ c. t c ≡ true) (after_scope u ix o (l ∷ m ∷ fs) r))
      (sym (ap (scoped parse (l ∷ m ∷ fs)) e ∙ s))
      (All-after_scope (λ c. t c ≡ true) u ix o (l ∷ m ∷ fs) (narrowed ns)
        (narrowed-All t (l ∷ m ∷ fs) ns s))

-- When the dependencies of the calling module leave some of the candidates that are not on the
-- denylist, the tail returns one of these dependencies or nothing: no later test brings back a
-- candidate that was left out.
pub tail-dependency :
    (u : Unicode) (parse : Text → Option Url) (ix : Indexer) (o : Url) (l m : Location)
    (ls ns : List Location) (ds : List GradleMeta)
    → owning_module_dependencies ix o ≡ some ds
    → module_scoped_tie_break parse ix o
        (keep (λ c. not (is_denylisted_package_prefix ix c)) (l ∷ m ∷ ls))
      ≡ narrowed ns
    → All
        (λ c. is_dependency ds (candidate_gradle_meta parse c) ≡ true)
        (ambiguity_safe_tail_with_denylist u parse ix o (l ∷ m ∷ ls))
unfolding ambiguity_safe_tail_with_denylist module_scoped_tie_break
tail-dependency u parse ix o l m ls ns ds e s =
    let fs : List Location = keep (λ c. not (is_denylisted_package_prefix ix c)) (l ∷ m ∷ ls) in
    after_denylist-dependency u parse ix o fs ns ds e (sym (ap (scoped parse fs) e) ∙ s)
