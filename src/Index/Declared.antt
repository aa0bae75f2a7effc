-- ===== src/Index/Declared.antt =====
-- The definitions map and the files it points into (`apply_file_result`, `reset_index_state`).
use mathlib.Core.Path.{subst}
use kmp_lsp.Base.{
  ◌≡◌, refl, sym, ap, ◌∙◌, Bool, true, false, not, ◌&&◌, Option, none, some, List, [], ◌∷◌, ◌++◌,
  map, arith, inl, inr, All, All-append, Bool-cases, ==_refl, any, keep, if◌then◌else◌,
}
use kmp_lsp.Text.{Text, text_eq, contains}
use kmp_lsp.Text.Laws.{text_eq_iff, text_eq_refl}
use kmp_lsp.Resolver.TieBreak.{Url}
use kmp_lsp.Index.Symbols.{Range, range_eq, SymbolEntry, FileData, SymbolLoc, FileIndexResult}
use kmp_lsp.Index.Store
use kmp_lsp.Index.Store.{
  Index, put, located, loc_eq, push_new, retain_names, remove_known, remove_stale_for_uri,
  apply_contributions, apply_file_result, reset_index_state, when_library,
}

abbrev pub declares : Option FileData → Text → Range → Bool
declares none name range = false
declares (some d) name range =
    any (λ s. text_eq s.name name && range_eq s.selection_range range) d.symbols

-- Every entry of the definitions map is declared in the file that it points into, as the index
-- holds it.
abbrev pub IsDeclared : Index → Type 0
IsDeclared ix =
    (name : Text) → All (λ l. declares (ix.files l.file) name l.range ≡ true) (ix.definitions name)

range_eq_refl : (r : Range) → range_eq r r ≡ true
range_eq_refl r = ground (
  arith,
  ==_refl r.start_line,
  ==_refl r.start_character,
  ==_refl r.end_line,
  ==_refl r.end_character,
)

module _ (P : SymbolLoc → Type 0) where
  push_new-All : (ls entry : List SymbolLoc) → All P ls → All P entry → All P (push_new ls entry)
  push_new-All [] entry h k = k
  push_new-All (l ∷ ls) entry h k = elim (Bool-cases (any (loc_eq l) entry)) [
    | inl e ↦ rw e (push_new-All ls entry h.1 k)
    | inr e ↦ rw e (push_new-All ls (entry ++ l ∷ []) h.1 (All-append P entry (l ∷ []) k (h.0, tt)))
  ]

  keep-kept : (t : SymbolLoc → Bool) (ls : List SymbolLoc) → All P ls → All P (keep t ls)
  keep-kept t [] h = h
  keep-kept t (l ∷ ls) h = ground (arith, keep-kept t ls h.1)

pub All-map :
    (P Q : SymbolLoc → Type 0) (ls : List SymbolLoc)
    → ((l : SymbolLoc) → P l → Q l)
    → All P ls
    → All Q ls
All-map P Q [] f h = tt
All-map P Q (l ∷ ls) f h = (f l h.0, All-map P Q ls f h.1)

keep_test :
    (P : SymbolLoc → Type 0) (t : SymbolLoc → Bool) (ls : List SymbolLoc)
    → All P ls
    → All (λ l. P l × (t l ≡ true)) (keep t ls)
keep_test P t [] h = tt
keep_test P t (l ∷ ls) h =
    let ih = keep_test P t ls h.1 in
    elim (Bool-cases (t l)) [ inl e ↦ rw e ((h.0, e), ih) | inr e ↦ rw e ih ]

pub keep_idem : (t : SymbolLoc → Bool) (ls : List SymbolLoc) → keep t (keep t ls) ≡ keep t ls
keep_idem t [] = refl
keep_idem t (l ∷ ls) = ground (arith, keep_idem t ls)

abbrev pub elsewhere : Text → SymbolLoc → Bool
elsewhere uri l = not (text_eq l.file uri)

-- What the loop over the stale names leaves at a name.
pub retain_names-at :
    (uri : Text) (names : List Text) (m : Text → List SymbolLoc) (name : Text)
    → retain_names uri names m name
      ≡ (if contains names name then keep (elsewhere uri) (m name) else m name)
retain_names-at uri [] m name = refl
retain_names-at uri (n ∷ names) m name =
    let ih = retain_names-at uri names (put n (keep (elsewhere uri) (m n)) m) name in
    elim (Bool-cases (text_eq n name)) [
      | inl e ↦
          let same : m n ≡ m name = ap m ((text_eq_iff n name).0 e) in
          let twice = keep_idem (elsewhere uri) (m n) in ground arith
      | inr e ↦ ground arith
    ]

module _ (uri : Text) (d' : FileData) (ix : Index) (name : Text) where
  -- The declaration of an entry in the files once `uri` is put there.
  abbrev pub Later : SymbolLoc → Type 0
  Later l = declares (put uri (some d') ix.files l.file) name l.range ≡ true

  abbrev pub Before : SymbolLoc → Type 0
  Before l = declares (ix.files l.file) name l.range ≡ true

  Later-elsewhere : (l : SymbolLoc) → Before l × (elsewhere uri l ≡ true) → Later l
  Later-elsewhere l (h, e) = elim (Bool-cases (text_eq uri l.file)) [
    | inl q ↦
        let back : text_eq l.file uri ≡ true =
          (text_eq_iff l.file uri).1 (sym ((text_eq_iff uri l.file).0 q)) in
        absurd (ground arith)
    | inr q ↦ ground arith
  ]

  -- An entry of `uri` itself stands under a name of the old file.
  pub Later-unnamed :
      (l : SymbolLoc) → (declares (ix.files uri) name l.range ≡ true → ⊥) → Before l → Later l
  Later-unnamed l missing h = elim (Bool-cases (text_eq uri l.file)) [
    | inl q ↦
        absurd (
          missing (ap (λ f. declares (ix.files f) name l.range) ((text_eq_iff uri l.file).0 q) ∙ h))
    | inr q ↦ ground arith
  ]

any-contains_name :
    (name : Text) (range : Range) (symbols : List SymbolEntry)
    → any (λ s. text_eq s.name name && range_eq s.selection_range range) symbols ≡ true
    → contains (map (λ s. s.name) symbols) name ≡ true
any-contains_name name range [] h = cc
any-contains_name name range (s ∷ symbols) h = ground (arith, any-contains_name name range symbols)

module _ (uri : Text) (whole : List SymbolEntry) (name : Text) where
  abbrev pub Found : SymbolLoc → Type 0
  Found l =
      (l.file ≡ uri)
      × (any (λ s. text_eq s.name name && range_eq s.selection_range l.range) whole ≡ true)

  abbrev pub Holds : SymbolEntry → Type 0
  Holds s =
      any (λ t. text_eq t.name s.name && range_eq t.selection_range s.selection_range) whole ≡ true

  pub located-Found :
      (symbols : List SymbolEntry) → All Holds symbols → All Found (located uri symbols name)
  located-Found [] h = tt
  located-Found (s ∷ symbols) h =
      let ih = located-Found symbols h.1 in
      elim (Bool-cases (text_eq s.name name)) [
        | inl e ↦ rw e (
          (
            refl,
            subst
                (λ x.
                  any (λ t. text_eq t.name x && range_eq t.selection_range s.selection_range) whole
                  ≡ true)
                ((text_eq_iff s.name name).0 e) h.0,
          ),
          ih,
        )
        | inr e ↦ rw e ih
      ]

Holds-more :
    (s : SymbolEntry) (whole symbols : List SymbolEntry)
    → All (Holds [] whole []) symbols
    → All (Holds [] (s ∷ whole) []) symbols
Holds-more s whole [] h = tt
Holds-more s whole (t ∷ symbols) h = (ground arith, Holds-more s whole symbols h.1)

pub Holds-self : (symbols : List SymbolEntry) → All (Holds [] symbols []) symbols
Holds-self [] = tt
Holds-self (s ∷ symbols) = (
  ground (arith, text_eq_refl s.name, range_eq_refl s.selection_range),
  Holds-more s symbols symbols (Holds-self symbols),
)

left_over :
    (uri : Text) (d' : FileData) (ix : Index) (name : Text) (old : FileData)
    → ix.files uri ≡ some old
    → All (Before uri d' ix name) (ix.definitions name)
    → (b : Bool) → contains (map (λ s. s.name) old.symbols) name ≡ b
    → All
        (Later uri d' ix name)
        (if b then keep (elsewhere uri) (ix.definitions name) else ix.definitions name)
left_over uri d' ix name old e h true c =
    All-map (λ l. Before uri d' ix name l × (elsewhere uri l ≡ true)) (Later uri d' ix name)
      (keep (elsewhere uri) (ix.definitions name)) (Later-elsewhere uri d' ix name)
      (keep_test (Before uri d' ix name) (elsewhere uri) (ix.definitions name) h)
left_over uri d' ix name old e h false c =
    All-map (Before uri d' ix name) (Later uri d' ix name) (ix.definitions name)
      (λ l k.
        Later-unnamed uri d' ix name l
          (λ d.
            let found =
              any-contains_name name l.range old.symbols
                (sym (ap (λ f. declares f name l.range) e) ∙ d) in
            absurd (ground arith))
          k)
      h

stale_gone :
    (uri : Text) (d' : FileData) (ix : Index) (name : Text) (u : Url) (o : Option FileData)
    → ix.files uri ≡ o
    → All (Before uri d' ix name) (ix.definitions name)
    → All (Later uri d' ix name) ((remove_known uri o (some u) ix).definitions name)
unfolding Store.remove_keys_for Store.stale_keys_for
stale_gone uri d' ix name u none e h =
    All-map (Before uri d' ix name) (Later uri d' ix name) (ix.definitions name)
      (λ l k. Later-unnamed uri d' ix name l (λ d. absurd (ground arith)) k) h
stale_gone uri d' ix name u (some old) e h =
    let names : List Text = map (λ s. s.name) old.symbols in
    let left : List SymbolLoc = ix.definitions name in
    subst (All (Later uri d' ix name)) (sym (retain_names-at uri names ix.definitions name))
      (left_over uri d' ix name old e h (contains names name) refl)

pub Found-Later :
    (uri : Text) (d : FileData) (d' : FileData) (ix : Index) (name : Text) (l : SymbolLoc)
    → d'.symbols ≡ d.symbols
    → Found uri d.symbols name l
    → Later uri d' ix name l
Found-Later uri d d' ix name l same (f, h) =
    let here : text_eq uri l.file ≡ true = (text_eq_iff uri l.file).1 (sym f) in
    let moved : declares (some d') name l.range ≡ true =
      ap (any (λ s. text_eq s.name name && range_eq s.selection_range l.range)) same ∙ h in
    ground arith

files_stay :
    (uri : Text) (o : Option FileData) (p : Option Url) (ix : Index)
    → (remove_known uri o p ix).files ≡ ix.files
unfolding Store.remove_keys_for
files_stay uri none p ix = refl
files_stay uri (some old) none ix = refl
files_stay uri (some old) (some u) ix = refl

-- After a file is indexed again, every entry of the definitions map is declared in the file that it
-- points into, as the index now holds it, if that was so before and the text of the file's URL parses
-- as that URL.
pub apply_file_result-IsDeclared :
    (parse : Text → Option Url) (source_paths : List Text) (r : FileIndexResult) (ix : Index)
    → parse r.uri.as_str ≡ some r.uri
    → IsDeclared ix
    → IsDeclared (apply_file_result parse source_paths r ix)
unfolding apply_file_result apply_contributions remove_stale_for_uri
apply_file_result-IsDeclared parse source_paths r ix e v name =
    let uri : Text = r.uri.as_str in
    let d' : FileData = Store.with_classified_source_set uri source_paths r.data_ in
    let ix' : Index = remove_known uri (ix.files uri) (some r.uri) ix in
    let fresh =
      All-map (Found uri r.data_.symbols name) (Later uri d' ix name)
        (located uri r.data_.symbols name) (λ l h. Found-Later uri r.data_ d' ix name l refl h)
        (located-Found uri r.data_.symbols name r.data_.symbols (Holds-self r.data_.symbols)) in
    let kept = stale_gone uri d' ix name r.uri (ix.files uri) refl (v name) in
    let both : All (Later uri d' ix name)
        (push_new (located uri r.data_.symbols name) (ix'.definitions name)) =
      push_new-All (Later uri d' ix name) (located uri r.data_.symbols name) (ix'.definitions name)
        fresh kept in
    let known : All (λ l. declares (put uri (some d') ix'.files l.file) name l.range ≡ true)
        (push_new (located uri r.data_.symbols name) (ix'.definitions name)) =
      subst
        (λ f.
          All (λ l. declares (put uri (some d') f l.file) name l.range ≡ true)
            (push_new (located uri r.data_.symbols name) (ix'.definitions name)))
        (sym (files_stay uri (ix.files uri) (some r.uri) ix)) both in
    subst
      (λ p.
        All
          (λ l.
            declares (put uri (some d') (remove_known uri (ix.files uri) p ix).files l.file) name
              l.range
            ≡ true)
          (push_new (located uri r.data_.symbols name)
            ((remove_known uri (ix.files uri) p ix).definitions name)))
      (sym e) known

reset_kept :
    (ix : Index) (name : Text) (ls : List SymbolLoc)
    → All (λ l. declares (ix.files l.file) name l.range ≡ true) ls
    → All
        (λ l.
          declares (when_library (ix.library_uris l.file) (ix.files l.file)) name l.range ≡ true)
        (keep (λ l. ix.library_uris l.file) ls)
reset_kept ix name [] h = tt
reset_kept ix name (l ∷ ls) h =
    let ih = reset_kept ix name ls h.1 in
    elim (Bool-cases (ix.library_uris l.file)) [
      | inl e ↦ rw e ((ground arith), ih)
      | inr e ↦ rw e ih
    ]

pub reset_index_state-IsDeclared : (ix : Index) → IsDeclared ix → IsDeclared (reset_index_state ix)
unfolding reset_index_state
reset_index_state-IsDeclared ix v name = reset_kept ix name (ix.definitions name) (v name)

-- The writes of the maps, in any order.
pub data Write : Type 0 where
  file_result : FileIndexResult → Write
  reset : Write

unfoldable pub write : (Text → Option Url) → List Text → Write → Index → Index
write parse source_paths (file_result r) ix = apply_file_result parse source_paths r ix
write parse source_paths reset ix = reset_index_state ix

unfoldable pub writes : (Text → Option Url) → List Text → List Write → Index → Index
writes parse source_paths [] ix = ix
writes parse source_paths (w ∷ ws) ix = writes parse source_paths ws (write parse source_paths w ix)

abbrev pub Parses : (Text → Option Url) → Write → Type 0
Parses parse (file_result r) = parse r.uri.as_str ≡ some r.uri
Parses parse reset = Unit

-- Whatever files are indexed, in any order and again, and however often the index is reset in
-- between: every entry of the definitions map is declared in the file that it points into, as the
-- index holds it, if that was so at the start and the URL of each file parses as itself.
pub writes-IsDeclared :
    (parse : Text → Option Url) (source_paths : List Text) (ws : List Write) (ix : Index)
    → All (Parses parse) ws
    → IsDeclared ix
    → IsDeclared (writes parse source_paths ws ix)
unfolding writes write
writes-IsDeclared parse source_paths [] ix h v = v
writes-IsDeclared parse source_paths (file_result r ∷ ws) ix h v =
    writes-IsDeclared parse source_paths ws (apply_file_result parse source_paths r ix) h.1
      (apply_file_result-IsDeclared parse source_paths r ix h.0 v)
writes-IsDeclared parse source_paths (reset ∷ ws) ix h v =
    writes-IsDeclared parse source_paths ws (reset_index_state ix) h.1
      (reset_index_state-IsDeclared ix v)
