-- ===== src/Resolver/Hierarchy.antt =====
-- The walks over supertypes: resolver/hierarchy.rs.
pub mod Sound
pub mod Levels
pub mod Nearest
mod Tests
use kmp_lsp.Base.{
  ℕ, zero, suc, Bool, true, false, ◌&&◌, ◌||◌, Option, none, some, List, [], ◌∷◌, ◌++◌, map, ◌==◌,
  if◌then◌else◌, ◌>>=◌, unwrap_or, is_empty, any, keep, find, head?,
}
use kmp_lsp.Text.{Text, Unicode, codes, text_eq, contains_char, split, join}
use kmp_lsp.TypeText.Names.{last_segment, starts_with_uppercase}
use kmp_lsp.Resolver.Names.{is_dot}
use kmp_lsp.Resolver.TieBreak.{Url, Location}
use kmp_lsp.Index.Symbols.{FileData, SymbolEntry}

-- A class by its name and the text of its file's URL.
abbrev pub Class : Type 0
Class = Text × Text

-- What the walks ask of the rest of the resolver. An `Index` is the maps with what is left of the
-- budget for promotions: a look-up that may promote a JAR returns it changed.
pub record Resolver : Type 1 where
  pub Index : Type 0
  pub unicode : Unicode
  pub parse : Text → Option Url
  pub ensure_file_data : Index → Url → Option FileData
  pub ensure_jar_definitions_for : Index → Text → Index
  pub find_symbol_in_package : Index → Text → Text → Option Location
  pub resolve_symbol_hierarchy_ambiguity_safe :
      Index → Text → Url → Option Url → Index × List Location
  pub find_name_scoped_to_container : Index → Text → Location → Option Location
  pub has_type_definition : Index → Text → Bool

abbrev name_of_super : ℕ × Text × List Text → Text
name_of_super (line, name, args) = name

abbrev is_at : ℕ → ℕ × Text × List Text → Bool
is_at class_line (line, name, args) = line == class_line

unfoldable pub super_names_for_class : FileData → Text → List Text
super_names_for_class file_data class_name =
    if is_empty class_name
    then map name_of_super file_data.supers
    else elim (find (λ s. text_eq s.name class_name) file_data.symbols) [
      | some symbol ↦
          map name_of_super (keep (is_at symbol.selection_range.start_line) file_data.supers)
      | none ↦ map name_of_super file_data.supers
    ]

-- The package, the outermost type and the nested types of a dotted name.
unfoldable pub split_at_type : Unicode → List Text → Option (List Text × Text × List Text)
split_at_type u [] = none
split_at_type u (s ∷ ss) =
    let rest = split_at_type u ss in
    if starts_with_uppercase u s then some ([], s, ss) else rest >>= λ r. some (s ∷ r.0, r.1, r.2)

module _ (r : Resolver) where
  abbrev located : Text → List Location → List Class
  located leaf locs = map (λ loc. (leaf, loc.uri.as_str)) locs

  -- The fallback by the simple name.
  abbrev by_leaf : Text → Url → Option Url → r.Index → r.Index × List Class
  by_leaf leaf uri origin idx =
      let found = r.resolve_symbol_hierarchy_ambiguity_safe idx leaf uri origin in
      (found.0, located leaf found.1)

  abbrev outermost : List Text → Text → Url → Option Url → r.Index → r.Index × Option Location
  outermost [] outer uri origin idx =
      let found = r.resolve_symbol_hierarchy_ambiguity_safe idx outer uri origin in
      (found.0, head? found.1)
  outermost (p ∷ ps) outer uri origin idx =
      (idx, r.find_symbol_in_package idx outer (join (codes ".") (p ∷ ps)))

  abbrev nested : r.Index → List Text → Option Location → Option Location
  nested idx [] container = container
  nested idx (seg ∷ segs) container =
      nested idx segs (container >>= r.find_name_scoped_to_container idx seg)

  abbrev exact_or_leaf : Text → Url → Option Url → r.Index → Option Location → r.Index × List Class
  exact_or_leaf leaf uri origin idx (some loc) = (idx, (leaf, loc.uri.as_str) ∷ [])
  exact_or_leaf leaf uri origin idx none = by_leaf leaf uri origin idx

  abbrev qualified :
      Text
      → Url
      → Option Url
      → r.Index
      → Option (List Text × Text × List Text)
      → r.Index × List Class
  qualified leaf uri origin idx none = by_leaf leaf uri origin idx
  qualified leaf uri origin idx (some (pkg, outer, segs)) =
      let (idx', container) = outermost pkg outer uri origin idx in
      exact_or_leaf leaf uri origin idx' (nested idx' segs container)

  unfoldable pub targets_of_super : Url → Option Url → r.Index → Text → r.Index × List Class
  targets_of_super uri origin idx super_name =
      let idx' = r.ensure_jar_definitions_for idx super_name in
      let leaf = last_segment super_name in
      if contains_char b'.' super_name
      then qualified leaf uri origin idx' (split_at_type r.unicode (split is_dot super_name))
      else by_leaf leaf uri origin idx'

  unfoldable pub targets_of_supers : Url → Option Url → r.Index → List Text → r.Index × List Class
  targets_of_supers uri origin idx [] = (idx, [])
  targets_of_supers uri origin idx (name ∷ names) =
      let (idx', here) = targets_of_super uri origin idx name in
      let (idx'', rest) = targets_of_supers uri origin idx' names in (idx'', here ++ rest)

  abbrev targets_in : Text → Text → r.Index → Option Url → Option FileData → r.Index × List Class
  targets_in class_name origin_uri idx (some uri) (some file_data) =
      targets_of_supers uri (r.parse origin_uri) idx (super_names_for_class file_data class_name)
  targets_in class_name origin_uri idx (some uri) none = (idx, [])
  targets_in class_name origin_uri idx none file_data = (idx, [])

  unfoldable pub supertype_targets : Text → r.Index → Class → r.Index × List Class
  supertype_targets origin_uri idx (class_name, class_uri) =
      targets_in class_name origin_uri idx (r.parse class_uri)
        (r.parse class_uri >>= r.ensure_file_data idx)

abbrev pub class_eq : Class → Class → Bool
class_eq (a, u) (b, v) = text_eq a b && text_eq u v

abbrev pub seen : Class → List Class → Bool
seen c visited = any (class_eq c) visited

-- The walks, over what they read of the index: `targets` is `supertype_targets` and `collect` the
-- closure that is called at each class.
module _ {I T : Type 0} (targets : I → Class → I × List Class) (collect : I → Class → List T) where
  pub record HierarchyWalker : Type 0 where
    pub idx : I
    pub visited : List Class
    pub items : List T

  abbrev pub visit : Class → HierarchyWalker → HierarchyWalker
  visit c w = record w { visited = c ∷ w.visited; items = w.items ++ collect w.idx c }

  -- The loop of `recurse`, which goes into each class that was not visited.
  unfoldable pub each :
      (Class → HierarchyWalker → HierarchyWalker) → List Class → HierarchyWalker → HierarchyWalker
  each go [] w = w
  each go (c ∷ cs) w = each go cs (if seen c w.visited then w else go c (visit c w))

  -- By the levels that are left, `max_depth - depth`.
  unfoldable pub recurse : ℕ → Class → HierarchyWalker → HierarchyWalker
  recurse zero c w = w
  recurse (suc n) c w =
      let (idx', supers) = targets w.idx c in each (recurse n) supers (record w { idx = idx' })

  unfoldable pub walk_hierarchy : I → Class → ℕ → List T
  walk_hierarchy idx start max_depth =
      (recurse max_depth start (record { idx = idx; visited = start ∷ []; items = [] })).items

  -- One level of the walk by breadth: the classes of the next, and what they gave.
  pub record Level : Type 0 where
    pub idx : I
    pub visited : List Class
    pub found : List T
    pub next_level : List Class

  abbrev pub enter : Class → Level → Level
  enter c l = record l {
    visited = c ∷ l.visited;
    found = l.found ++ collect l.idx c;
    next_level = l.next_level ++ c ∷ [];
  }

  unfoldable pub enter_all : List Class → Level → Level
  enter_all [] l = l
  enter_all (c ∷ cs) l = enter_all cs (if seen c l.visited then l else enter c l)

  unfoldable pub scan_level : List Class → Level → Level
  scan_level [] l = l
  scan_level (c ∷ cs) l =
      let (idx', supers) = targets l.idx c in
      scan_level cs (enter_all supers (record l { idx = idx' }))

  unfoldable pub levels_from : ℕ → I → List Class → List Class → List T
  levels_from zero idx visited current = []
  levels_from (suc n) idx visited current =
      let l =
        scan_level current (record { idx = idx; visited = visited; found = []; next_level = [] }) in
      let rest = levels_from n l.idx l.visited l.next_level in
      if is_empty l.found then if is_empty l.next_level then [] else rest else l.found

  unfoldable pub walk_hierarchy_breadth_first : I → Class → ℕ → List T
  walk_hierarchy_breadth_first idx start max_depth =
      levels_from max_depth idx (start ∷ []) (start ∷ [])

pub data ReceiverTypeAgreement : Type 0 where
  exact inherited unrelated unresolvable : ReceiverTypeAgreement

abbrev if_named : {I : Type 0} → Text → I → Class → List Bool
if_named target idx (name, uri) = if text_eq name target then true ∷ [] else []

-- The origin of this walk is its start: the caller's context is the default.
module _ (r : Resolver) where
  unfoldable pub supertype_chain_contains : r.Index → Text → Text → Text → Bool
  supertype_chain_contains idx candidate_type candidate_uri target_type =
      elim (walk_hierarchy (supertype_targets r candidate_uri) (if_named target_type) idx
        (candidate_type, candidate_uri) 12) [ [] ↦ false | t ∷ ts ↦ true ]

  unfoldable pub receiver_type_agreement : r.Index → Text → Text → Text → ReceiverTypeAgreement
  receiver_type_agreement idx candidate_type candidate_uri target_type =
      if text_eq candidate_type target_type
      then exact
      else if r.has_type_definition idx candidate_type
      then if supertype_chain_contains idx candidate_type candidate_uri target_type
        then inherited
        else unrelated
      else unresolvable
