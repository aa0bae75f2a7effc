-- ===== src/Resolver/Hierarchy/Tests.antt =====
-- Walks over small hierarchies.
use kmp_lsp.Base.{ℕ, ◌≡◌, refl, true, false, some, none, List, [], ◌∷◌, if◌then◌else◌}
use kmp_lsp.Text.{Text, codes, text_eq, ascii_table}
use kmp_lsp.TypeText.Names.{last_segment}
use kmp_lsp.Index.Symbols.{main}
use kmp_lsp.Resolver.TieBreak.{Url}
use kmp_lsp.Resolver.Hierarchy.{
  Class, Resolver, inherited, walk_hierarchy, recurse, each, walk_hierarchy_breadth_first,
  receiver_type_agreement, supertype_chain_contains, supertype_targets, targets_of_super,
  targets_of_supers, super_names_for_class, levels_from, scan_level, enter_all,
}
use kmp_lsp.Resolver.Hierarchy.Sound
use kmp_lsp.Resolver.Hierarchy.Sound.{Ancestor, receiver_type_agreement-Means}
use kmp_lsp.Resolver.Hierarchy.Levels
use kmp_lsp.Resolver.Hierarchy.Nearest
use kmp_lsp.Resolver.Hierarchy.Nearest.{walk_hierarchy_breadth_first-Nearest}

abbrev named : Text → Class
named n = (n, codes "file:///")

abbrev start : Class
start = named (codes "A")

-- A extends B and C, B extends C, C extends D.
abbrev edges : Class → List Class
edges (n, u) =
    if text_eq n (codes "A")
    then named (codes "B") ∷ named (codes "C") ∷ []
    else if text_eq n (codes "B")
    then named (codes "C") ∷ []
    else if text_eq n (codes "C")
    then named (codes "D") ∷ []
    else []

abbrev targets : ℕ → Class → ℕ × List Class
targets i c = (i, edges c)

abbrev only_d : Class → List Text
only_d (n, u) = if text_eq n (codes "D") then n ∷ [] else []

abbrev itself_at : ℕ → Class → List Class
itself_at i c = c ∷ []

walk_hierarchy_breadth_first-Nearest_example : Nearest.Nearest edges only_d start 3 (
    walk_hierarchy_breadth_first
      (Levels.targets {I = ℕ} edges only_d)
      (Levels.collect edges only_d)
      0
      start
      3)
walk_hierarchy_breadth_first-Nearest_example =
    walk_hierarchy_breadth_first-Nearest edges only_d start 0 3

-- Within two steps of A there is D, by C. The walk by depth comes to C by B first, when no step is
-- left, and does not go into it again; the walk by breadth finds D.
missed :
    (walk_hierarchy targets (λ i. only_d) 0 start 2 ≡ [])
    × (walk_hierarchy_breadth_first targets (λ i. only_d) 0 start 2 ≡ codes "D" ∷ [])
unfolding walk_hierarchy recurse each walk_hierarchy_breadth_first levels_from scan_level enter_all
missed = (refl, refl)

abbrev the_url : Url
the_url = record {
  as_str = codes "file:///S.kt";
  to_file_path = none;
  scheme = codes "file";
  cannot_be_a_base = false;
  path = codes "/S.kt";
}

-- A resolver that knows one file, with a class that extends `Base`.
abbrev resolver : Resolver
resolver = record {
  Index = ℕ;
  unicode = ascii_table;
  parse = λ t. some the_url;
  ensure_file_data = λ i u. some (record {
    symbols = [];
    package_name = none;
    source_set = main;
    supers = (0, codes "Base", []) ∷ [];
  });
  ensure_jar_definitions_for = λ i n. i;
  find_symbol_in_package = λ i n p. none;
  resolve_symbol_hierarchy_ambiguity_safe = λ i n u o. (i, record { uri = the_url; line = 0 } ∷ []);
  find_name_scoped_to_container = λ i n l. none;
  has_type_definition = λ i n. true;
}

receiver_type_agreement-Means_example :
    Sound.Means resolver 0
      (codes "Sub")
      (codes "file:///S.kt")
      (codes "Base")
      (receiver_type_agreement resolver 0 (codes "Sub") (codes "file:///S.kt") (codes "Base"))
receiver_type_agreement-Means_example =
    receiver_type_agreement-Means resolver 0 (codes "Sub") (codes "file:///S.kt") (codes "Base")

agrees :
    receiver_type_agreement resolver 0 (codes "Sub") (codes "file:///S.kt") (codes "Base")
    ≡ inherited
unfolding receiver_type_agreement supertype_chain_contains walk_hierarchy recurse each
    supertype_targets targets_of_supers targets_of_super super_names_for_class last_segment
agrees = refl
