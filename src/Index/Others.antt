-- ===== src/Index/Others.antt =====
-- What a re-indexed file changes in the maps, and what it leaves (`apply_file_result`).
use kmp_lsp.Base.{
  ◌≡◌, refl, ap, ◌∙◌, Bool, true, false, ◌||◌, Option, none, some, List, [], ◌∷◌, ◌++◌, map, arith,
  inl, inr, All, Bool-cases, any, keep,
}
use kmp_lsp.Text.{Text, text_eq, contains}
use kmp_lsp.Text.Laws.{text_eq_refl}
use kmp_lsp.Resolver.TieBreak.{Url}
use kmp_lsp.Index.Symbols.{
  SymbolEntry, FileData, SymbolLoc, FileIndexResult, build_qualified_keys, file_stem_from_uri,
}
use kmp_lsp.Index.Store
use kmp_lsp.Index.Store.{
  Index, put, located, loc_eq, push_new, remove_keys, last_range, or_old, remove_known,
  remove_stale_for_uri, apply_contributions, apply_file_result,
}
use kmp_lsp.Index.Declared.{elsewhere, keep_idem, retain_names-at}

keep-append :
    (t : SymbolLoc → Bool) (xs ys : List SymbolLoc) → keep t (xs ++ ys) ≡ keep t xs ++ keep t ys
keep-append t [] ys = refl
keep-append t (x ∷ xs) ys = ground (arith, keep-append t xs ys)

append_nil : (xs : List SymbolLoc) → xs ++ [] ≡ xs
append_nil [] = refl
append_nil (x ∷ xs) = ap (λ z. x ∷ z) (append_nil xs)

push_here :
    (uri : Text) (ls entry : List SymbolLoc)
    → All (λ l. elsewhere uri l ≡ false) ls
    → keep (elsewhere uri) (push_new ls entry) ≡ keep (elsewhere uri) entry
push_here uri [] entry h = refl
push_here uri (l ∷ ls) entry h = elim (Bool-cases (any (loc_eq l) entry)) [
  | inl e ↦ rw e (push_here uri ls entry h.1)
  | inr e ↦
      let ih = push_here uri ls (entry ++ l ∷ []) h.1 in
      let parts = keep-append (elsewhere uri) entry (l ∷ []) in
      let gone : keep (elsewhere uri) (l ∷ []) ≡ [] = rw h.0 in
      let whole = append_nil (keep (elsewhere uri) entry) in
      rw e (ih ∙ parts ∙ ap (λ z. keep (elsewhere uri) entry ++ z) gone ∙ whole)
]

located_here :
    (uri name : Text) (symbols : List SymbolEntry)
    → All (λ l. elsewhere uri l ≡ false) (located uri symbols name)
located_here uri name [] = tt
located_here uri name (s ∷ symbols) =
    let ih = located_here uri name symbols in
    let self = text_eq_refl uri in
    elim (Bool-cases (text_eq s.name name)) [ inl e ↦ rw e ((ground arith), ih) | inr e ↦ rw e ih ]

stale_here :
    (uri name : Text) (o : Option FileData) (p : Option Url) (ix : Index)
    → keep (elsewhere uri) ((remove_known uri o p ix).definitions name)
      ≡ keep (elsewhere uri) (ix.definitions name)
unfolding Store.remove_keys_for Store.stale_keys_for
stale_here uri name none p ix = refl
stale_here uri name (some old) none ix = refl
stale_here uri name (some old) (some u) ix =
    let names : List Text = map (λ s. s.name) old.symbols in
    let at = retain_names-at uri names ix.definitions name in
    let twice = keep_idem (elsewhere uri) (ix.definitions name) in
    elim (Bool-cases (contains names name)) [ inl e ↦ ground arith | inr e ↦ ground arith ]

-- Indexing a file again leaves the entries of all other files under every name, in their order.
pub apply_file_result-others :
    (parse : Text → Option Url) (source_paths : List Text) (r : FileIndexResult) (ix : Index)
    (name : Text)
    → keep (elsewhere r.uri.as_str) ((apply_file_result parse source_paths r ix).definitions name)
      ≡ keep (elsewhere r.uri.as_str) (ix.definitions name)
unfolding apply_file_result apply_contributions remove_stale_for_uri
apply_file_result-others parse source_paths r ix name =
    let uri : Text = r.uri.as_str in
    push_here uri (located uri r.data_.symbols name)
      ((remove_known uri (ix.files uri) (parse uri) ix).definitions name)
      (located_here uri name r.data_.symbols)
    ∙ stale_here uri name (ix.files uri) (parse uri) ix

pub any-append :
    (p : SymbolLoc → Bool) (xs ys : List SymbolLoc) → any p (xs ++ ys) ≡ (any p xs || any p ys)
any-append p [] ys = refl
any-append p (x ∷ xs) ys = ground (arith, any-append p xs ys)

removed_stays :
    (keys : List Text) (m : Text → Option SymbolLoc) (key : Text)
    → m key ≡ none
    → remove_keys keys m key ≡ none
removed_stays [] m key h = h
removed_stays (k ∷ keys) m key h = removed_stays keys (put k none m) key (ground arith)

remove_keys-at :
    (keys : List Text) (m : Text → Option SymbolLoc) (key : Text)
    → contains keys key ≡ true
    → remove_keys keys m key ≡ none
remove_keys-at [] m key h = absurd (cc)
remove_keys-at (k ∷ keys) m key h = elim (Bool-cases (text_eq k key)) [
  | inl e ↦ removed_stays keys (put k none m) key (ground arith)
  | inr e ↦ remove_keys-at keys (put k none m) key (ground arith)
]

-- A qualified name that the old text of a file declared and the new one does not is gone from the map
-- of qualified names, whichever file it pointed into.
pub apply_file_result-loses :
    (parse : Text → Option Url) (source_paths : List Text) (r : FileIndexResult) (ix : Index)
    (old : FileData) (key : Text)
    → parse r.uri.as_str ≡ some r.uri
    → ix.files r.uri.as_str ≡ some old
    → contains (map (λ pair. pair.0) (build_qualified_keys old (file_stem_from_uri r.uri))) key
      ≡ true
    → last_range (build_qualified_keys r.data_ (file_stem_from_uri r.uri)) key ≡ none
    → (apply_file_result parse source_paths r ix).qualified key ≡ none
unfolding apply_file_result apply_contributions remove_stale_for_uri Store.remove_keys_for
    Store.stale_keys_for
apply_file_result-loses parse source_paths r ix old key e f h new =
    let uri : Text = r.uri.as_str in
    ap (λ o. or_old uri o ((remove_known uri (ix.files uri) (parse uri) ix).qualified key)) new
    ∙ ap (λ o. (remove_known uri o (parse uri) ix).qualified key) f
    ∙ ap (λ p. (remove_known uri (some old) p ix).qualified key) e
    ∙ remove_keys-at (map (λ pair. pair.0) (build_qualified_keys old (file_stem_from_uri r.uri)))
        ix.qualified key h
