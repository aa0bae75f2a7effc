-- ===== src/Resolver/TieBreak/Unique.antt =====
-- How many candidates the tail of resolver/tie_break.rs returns.
use kmp_lsp.Base.{◌≤◌, not, Option, none, some, List, [], ◌∷◌, map, arith, length, keep}
use kmp_lsp.Text.{Text, Unicode, contains}
use kmp_lsp.Resolver.TieBreak
use kmp_lsp.Resolver.TieBreak.{
  Url, Location, Indexer, FileData, no_data, no_dependencies_survived, narrowed,
  ModuleScopedOutcome, is_denylisted_package_prefix, is_dependency, candidate_gradle_meta,
  owning_module_dependencies, module_scoped_tie_break, ambiguity_safe_tail_with_denylist,
  import_package_tie_break, default_kotlin_import_tie_break, import_round, after_scope,
  after_denylist, unique, among, among_imports, prefer_default, scoped, or_all, outcome_of,
  location_package, in_packages,
}

length-unique : (ls : List Location) → length (unique ls) ≤ 1
length-unique [] = ground arith
length-unique (l ∷ []) = ground arith
length-unique (l ∷ m ∷ ls) = ground arith

length-among : (ix : Indexer) (ls : List Location) (ps : List Text) → length (among ix ls ps) ≤ 1
length-among ix ls [] = ground arith
length-among ix ls (p ∷ ps) =
    length-unique (keep (λ l. in_packages (contains (p ∷ ps)) (location_package ix l)) ls)

length-among_imports :
    (u : Unicode) (ix : Indexer) (ls : List Location) (o : Option FileData)
    → length (among_imports u ix ls o) ≤ 1
length-among_imports u ix ls none = ground arith
length-among_imports u ix ls (some f) =
    length-among ix ls (map (TieBreak.package_of_import u) f.imports)

length-import_tie :
    (u : Unicode) (ix : Indexer) (o : Url) (ls : List Location)
    → length (import_package_tie_break u ix o ls) ≤ 1
unfolding import_package_tie_break
length-import_tie u ix o ls = length-among_imports u ix ls (ix.files o.as_str)

length-import_round :
    (u : Unicode) (ix : Indexer) (o : Url) (ls : List Location)
    → length (import_round u ix o ls) ≤ 1
length-import_round u ix o [] = length-import_tie u ix o []
length-import_round u ix o (l ∷ []) = ground arith
length-import_round u ix o (l ∷ m ∷ ls) = length-import_tie u ix o (l ∷ m ∷ ls)

length-after_scope :
    (u : Unicode) (ix : Indexer) (o : Url) (ls : List Location) (r : ModuleScopedOutcome)
    → length (after_scope u ix o ls r) ≤ 1
length-after_scope u ix o ls no_data =
    length-import_round u ix o (default_kotlin_import_tie_break ix o ls)
length-after_scope u ix o ls no_dependencies_survived =
    length-import_round u ix o (default_kotlin_import_tie_break ix o ls)
length-after_scope u ix o ls (narrowed []) =
    length-import_round u ix o (default_kotlin_import_tie_break ix o [])
length-after_scope u ix o ls (narrowed (l ∷ [])) = ground arith
length-after_scope u ix o ls (narrowed (l ∷ m ∷ ms)) =
    length-import_round u ix o (default_kotlin_import_tie_break ix o (l ∷ m ∷ ms))

length-after_denylist :
    (u : Unicode) (parse : Text → Option Url) (ix : Indexer) (o : Url) (ls : List Location)
    → length (after_denylist u parse ix o ls) ≤ 1
length-after_denylist u parse ix o [] = ground arith
length-after_denylist u parse ix o (l ∷ []) = ground arith
length-after_denylist u parse ix o (l ∷ m ∷ ls) =
    length-after_scope u ix o (l ∷ m ∷ ls) (module_scoped_tie_break parse ix o (l ∷ m ∷ ls))

-- The tail of tie-breaks returns one location at most, whatever the candidates and the index.
pub tail-length :
    (u : Unicode) (parse : Text → Option Url) (ix : Indexer) (o : Url) (ls : List Location)
    → length (ambiguity_safe_tail_with_denylist u parse ix o ls) ≤ 1
unfolding ambiguity_safe_tail_with_denylist
tail-length u parse ix o [] = ground arith
tail-length u parse ix o (l ∷ []) = ground arith
tail-length u parse ix o (l ∷ m ∷ ls) =
    length-after_denylist u parse ix o
      (keep (λ c. not (is_denylisted_package_prefix ix c)) (l ∷ m ∷ ls))
