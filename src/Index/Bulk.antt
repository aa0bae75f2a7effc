-- ===== src/Index/Bulk.antt =====
-- The full replacement after a scan (`apply_workspace_result` of indexer/apply.rs), whose writer skips
-- the search for duplicates.
use kmp_lsp.Base.{
  ◌≡◌, refl, sym, ap, ◌∙◌, true, false, none, some, List, [], ◌∷◌, ◌++◌, append_assoc, append-nil,
  arith, inl, inr, All, All-append, Bool-cases, any,
}
use kmp_lsp.Text.{Text, text_eq}
use kmp_lsp.Text.Laws.{text_eq_iff}
use kmp_lsp.Index.Symbols.{
  SymbolEntry, FileData, SymbolLoc, FileIndexResult, build_qualified_keys, file_stem_from_uri,
}
use kmp_lsp.Index.Store.{
  Index, put, located, loc_eq, push_new, last_range, or_old, package_files, subtypes_of,
  extensions_of, with_classified_source_set, apply_contributions, reset_index_state,
}
use kmp_lsp.Index.Declared.{
  IsDeclared, declares, Later, Before, Found, All-map, Later-unnamed, Found-Later, located-Found,
  Holds-self, reset_index_state-IsDeclared,
}
use kmp_lsp.Index.Others.{any-append}

unfoldable pub apply_contributions_fresh : List Text → FileIndexResult → Index → Index
apply_contributions_fresh source_paths result ix =
    let uri = result.uri.as_str in
    let keys = build_qualified_keys result.data_ (file_stem_from_uri result.uri) in
    record ix {
      files = put uri (some (with_classified_source_set uri source_paths result.data_)) ix.files;
      content_hashes = put uri (some result.content_hash) ix.content_hashes;
      definitions = λ name. ix.definitions name ++ located uri result.data_.symbols name;
      qualified = λ key. or_old uri (last_range keys key) (ix.qualified key);
      packages = λ pkg. ix.packages pkg ++ package_files uri result.data_.package_name pkg;
      subtypes = λ name. ix.subtypes name ++ subtypes_of result.supertypes name;
      extension_by_receiver = λ receiver.
          ix.extension_by_receiver receiver
          ++ extensions_of uri result.data_.package_name result.data_.symbols receiver;
    }

unfoldable pub apply_all_fresh : List Text → List FileIndexResult → Index → Index
apply_all_fresh source_paths [] ix = ix
apply_all_fresh source_paths (r ∷ rs) ix =
    apply_all_fresh source_paths rs (apply_contributions_fresh source_paths r ix)

-- Without the rebuild of the name cache at the end, which reads the maps.
unfoldable pub apply_workspace_result : List Text → List FileIndexResult → Index → Index
apply_workspace_result source_paths files ix =
    record (apply_all_fresh source_paths files (reset_index_state ix)) { bare_names_dirty = true }

-- No location of the list stands in the list twice.
abbrev pub NoRepeat : List SymbolLoc → Type 0
NoRepeat [] = Unit
NoRepeat (l ∷ ls) = All (λ m. loc_eq m l ≡ false) ls × NoRepeat ls

absent_later :
    (l : SymbolLoc) (ls entry : List SymbolLoc)
    → All (λ m. loc_eq m l ≡ false) ls
    → All (λ m. any (loc_eq m) entry ≡ false) ls
    → All (λ m. any (loc_eq m) (entry ++ l ∷ []) ≡ false) ls
absent_later l [] entry h k = tt
absent_later l (m ∷ ls) entry h k =
    let parts = any-append (loc_eq m) entry (l ∷ []) in
    (ground arith, absent_later l ls entry h.1 k.1)

push_new-append :
    (ls entry : List SymbolLoc)
    → All (λ m. any (loc_eq m) entry ≡ false) ls
    → NoRepeat ls
    → push_new ls entry ≡ entry ++ ls
push_new-append [] entry h d = sym (append-nil entry)
push_new-append (l ∷ ls) entry h d = rw h.0 (
    push_new-append ls (entry ++ l ∷ []) (absent_later l ls entry d.0 h.1) d.1
    ∙ append_assoc entry (l ∷ []) ls)

none_of :
    (m : SymbolLoc) (uri : Text) (entry : List SymbolLoc)
    → m.file ≡ uri
    → All (λ l. text_eq uri l.file ≡ false) entry
    → any (loc_eq m) entry ≡ false
none_of m uri [] e h = refl
none_of m uri (l ∷ entry) e h =
    let ih = none_of m uri entry e h.1 in
    let here : text_eq m.file l.file ≡ false = ap (λ f. text_eq f l.file) e ∙ h.0 in ground arith

located-absent :
    (uri name : Text) (whole : List SymbolEntry) (ls entry : List SymbolLoc)
    → All (Found uri whole name) ls
    → All (λ l. text_eq uri l.file ≡ false) entry
    → All (λ m. any (loc_eq m) entry ≡ false) ls
located-absent uri name whole [] entry f h = tt
located-absent uri name whole (m ∷ ls) entry f h =
    (none_of m uri entry f.0.0 h, located-absent uri name whole ls entry f.1 h)

unknown_absent :
    (uri : Text) (ix : Index) (name : Text) (l : SymbolLoc)
    → ix.files uri ≡ none
    → declares (ix.files l.file) name l.range ≡ true
    → text_eq uri l.file ≡ false
unknown_absent uri ix name l e h = elim (Bool-cases (text_eq uri l.file)) [
  | inl q ↦
      let gone : declares (ix.files l.file) name l.range ≡ false =
        ap (λ f. declares (ix.files f) name l.range) (sym ((text_eq_iff uri l.file).0 q))
        ∙ ap (λ o. declares o name l.range) e in
      absurd (ground arith)
  | inr q ↦ q
]

-- For a file that the index does not know, the writer that skips the search for duplicates enters the
-- same definitions as the one that makes it, if every entry of the map is declared in its file and the
-- file's symbols of one name stand at different places.
pub apply_contributions_fresh-reference :
    (source_paths : List Text) (r : FileIndexResult) (ix : Index) (name : Text)
    → IsDeclared ix
    → ix.files r.uri.as_str ≡ none
    → NoRepeat (located r.uri.as_str r.data_.symbols name)
    → (apply_contributions_fresh source_paths r ix).definitions name
      ≡ (apply_contributions source_paths r ix).definitions name
unfolding apply_contributions apply_contributions_fresh
apply_contributions_fresh-reference source_paths r ix name v e d =
    let uri : Text = r.uri.as_str in
    let ls : List SymbolLoc = located uri r.data_.symbols name in
    let others : All (λ l. text_eq uri l.file ≡ false) (ix.definitions name) =
      All-map (λ l. declares (ix.files l.file) name l.range ≡ true)
        (λ l. text_eq uri l.file ≡ false) (ix.definitions name)
        (λ l h. unknown_absent uri ix name l e h) (v name) in
    sym (
      push_new-append ls (ix.definitions name)
        (located-absent uri name r.data_.symbols ls (ix.definitions name)
          (located-Found uri r.data_.symbols name r.data_.symbols (Holds-self r.data_.symbols))
          others)
        d)

true-false : true ≡ false → ⊥
true-false e = cc

fresh-IsDeclared :
    (source_paths : List Text) (r : FileIndexResult) (ix : Index)
    → ix.files r.uri.as_str ≡ none
    → IsDeclared ix
    → IsDeclared (apply_contributions_fresh source_paths r ix)
unfolding apply_contributions_fresh
fresh-IsDeclared source_paths r ix e v name =
    let uri : Text = r.uri.as_str in
    let d' : FileData = with_classified_source_set uri source_paths r.data_ in
    All-append (Later uri d' ix name) (ix.definitions name) (located uri r.data_.symbols name)
      (All-map (Before uri d' ix name) (Later uri d' ix name) (ix.definitions name)
        (λ l h.
          Later-unnamed uri d' ix name l
            (λ d. absurd (true-false (sym d ∙ ap (λ o. declares o name l.range) e))) h)
        (v name))
      (All-map (Found uri r.data_.symbols name) (Later uri d' ix name)
        (located uri r.data_.symbols name) (λ l h. Found-Later uri r.data_ d' ix name l refl h)
        (located-Found uri r.data_.symbols name r.data_.symbols (Holds-self r.data_.symbols)))

abbrev pub Unknown : Index → List FileIndexResult → Type 0
Unknown ix rs = All (λ r. ix.files r.uri.as_str ≡ none) rs

abbrev pub DifferentFiles : List FileIndexResult → Type 0
DifferentFiles [] = Unit
DifferentFiles (r ∷ rs) =
    All (λ s. text_eq r.uri.as_str s.uri.as_str ≡ false) rs × DifferentFiles rs

Unknown-fresh :
    (source_paths : List Text) (r : FileIndexResult) (rs : List FileIndexResult) (ix : Index)
    → All (λ s. text_eq r.uri.as_str s.uri.as_str ≡ false) rs
    → Unknown ix rs
    → Unknown (apply_contributions_fresh source_paths r ix) rs
unfolding apply_contributions_fresh
Unknown-fresh source_paths r [] ix h k = tt
Unknown-fresh source_paths r (s ∷ rs) ix h k =
    (ground arith, Unknown-fresh source_paths r rs ix h.1 k.1)

all_fresh-IsDeclared :
    (source_paths : List Text) (rs : List FileIndexResult) (ix : Index)
    → Unknown ix rs
    → DifferentFiles rs
    → IsDeclared ix
    → IsDeclared (apply_all_fresh source_paths rs ix)
unfolding apply_all_fresh
all_fresh-IsDeclared source_paths [] ix u d v = v
all_fresh-IsDeclared source_paths (r ∷ rs) ix u d v =
    all_fresh-IsDeclared source_paths rs (apply_contributions_fresh source_paths r ix)
      (Unknown-fresh source_paths r rs ix d.0 u.1) d.1 (fresh-IsDeclared source_paths r ix u.0 v)

-- After the result of a scan has replaced the index, every entry of the definitions map is declared in
-- the file that it points into, if that was so before, the scan's files are different ones and none of
-- them is a library file that the reset keeps.
pub apply_workspace_result-IsDeclared :
    (source_paths : List Text) (rs : List FileIndexResult) (ix : Index)
    → Unknown (reset_index_state ix) rs
    → DifferentFiles rs
    → IsDeclared ix
    → IsDeclared (apply_workspace_result source_paths rs ix)
unfolding apply_workspace_result
apply_workspace_result-IsDeclared source_paths rs ix u d v =
    all_fresh-IsDeclared source_paths rs (reset_index_state ix) u d
      (reset_index_state-IsDeclared ix v)
