-- ===== src/Completion/Collected.antt =====
-- What the collection of bare names holds: resolver/complete.rs.
use kmp_lsp.Base.{
  ℕ, ◌+◌, ◌-◌, ◌%◌, ◌^◌, ◌≤◌, ◌≡◌, refl, Bool, true, not, ◌&&◌, Option, none, some, List, [], ◌∷◌,
  ◌++◌, arith, inl, inr, Option-cases, All, All-append, if_keep, is_some, ltb,
}
use kmp_lsp.Text.{Text, Unicode, contains}
use kmp_lsp.Completion.Matching.{match_score}
use kmp_lsp.Completion.Bare.{
  BareCompleter, CompletionItem, add, add_all_stdlib, add_scored, add_stdlib, add_stdlib_scored,
  admit, collect_stdlib, new_completer, score_within, wrong_case,
}
use kmp_lsp.Completion.Cross.{
  BareCompletionWalk, CompletionIndex, CurrentFileCompletionContext, add_cross_package_name,
  add_cross_package_name_without_imports, add_cross_package_names, add_cross_package_symbol,
  add_cross_package_symbols, add_cross_scored, add_names, collect_cross_package,
  cross_package_score, promote,
}

score_within-matches :
    (u : Unicode) (name prefix : Text) (m s : ℕ)
    → score_within u name prefix m ≡ some s
    → is_some (match_score u name prefix) ≡ true
unfolding score_within
score_within-matches u name prefix m s h = elim (Option-cases (match_score u name prefix)) [
  | inl e ↦ let g : none ≡ some s = rw (e, score_within) at h in cc
  | inr (t, e) ↦ rw e refl
]

-- A name that fits what was typed.
abbrev pub Fits : Unicode → Text → CompletionItem → Type 0
Fits u prefix item = is_some (match_score u item.label prefix) ≡ true

admit-All :
    (P : CompletionItem → Type 0) (key : Text) (item : CompletionItem) (c : BareCompleter)
    → P item
    → All P c.items
    → All P (admit key item c).items
admit-All P key item c p h =
    if_keep (λ d. All P d.items) (contains c.seen key) c
      (record c { seen = key ∷ c.seen; items = c.items ++ item ∷ [] }) h
      (All-append P c.items (item ∷ []) h (p, tt))

module _ (u : Unicode) (prefix : Text) where
  add_scored-Fits :
      (name : Text) (kind tier : ℕ) (detail : Text) (item_data : Option Text) (m : ℕ) (o : Option ℕ)
      (c : BareCompleter)
      → score_within u name prefix m ≡ o
      → All (Fits u prefix) c.items
      → All (Fits u prefix) (add_scored u name kind tier detail item_data o c).items
  add_scored-Fits name kind tier detail item_data m none c e h = h
  add_scored-Fits name kind tier detail item_data m (some s) c e h =
      admit-All (Fits u prefix) name _ c (score_within-matches u name prefix m s e) h

  add-Fits :
      (name : Text) (kind tier : ℕ) (detail : Text) (item_data : Option Text) (c : BareCompleter)
      → All (Fits u prefix) c.items
      → All (Fits u prefix) (add u prefix name kind tier detail item_data c).items
  unfolding add
  add-Fits name kind tier detail item_data c h =
      if_keep (λ d. All (Fits u prefix) d.items) _ c _ h
        (add_scored-Fits name kind tier detail item_data c.local_max_score
          (score_within u name prefix c.local_max_score) c refl h)

  add_stdlib_scored-Fits :
      (item : CompletionItem) (o : Option ℕ) (c : BareCompleter)
      → score_within u item.label prefix 2 ≡ o
      → All (Fits u prefix) c.items
      → All (Fits u prefix) (add_stdlib_scored u item o c).items
  add_stdlib_scored-Fits item none c e h = h
  add_stdlib_scored-Fits item (some s) c e h =
      admit-All (Fits u prefix) item.label _ c (score_within-matches u item.label prefix 2 s e) h

  add_all_stdlib-Fits :
      (items : List CompletionItem) (c : BareCompleter)
      → All (Fits u prefix) c.items
      → All (Fits u prefix) (add_all_stdlib u prefix items c).items
  unfolding add_all_stdlib add_stdlib
  add_all_stdlib-Fits [] c h = h
  add_all_stdlib-Fits (item ∷ items) c h = add_all_stdlib-Fits items (add_stdlib u prefix item c) (
      if_keep (λ d. All (Fits u prefix) d.items) (wrong_case u c item.label) c _ h
        (add_stdlib_scored-Fits item (score_within u item.label prefix 2) c refl h))

  -- What a request adds to the tiers of the file, of its package and of the standard library.
  pub data Call : Type 0 where
    adds : (name : Text) (kind tier : ℕ) (detail : Text) (item_data : Option Text) → Call
    stdlib : List CompletionItem → Call

  abbrev pub call : Call → BareCompleter → BareCompleter
  call (adds name kind tier detail item_data) c = add u prefix name kind tier detail item_data c
  call (stdlib items) c = collect_stdlib u prefix items c

  unfoldable pub calls : List Call → BareCompleter → BareCompleter
  calls [] c = c
  calls (a ∷ as_) c = calls as_ (call a c)

  call-Fits :
      (a : Call) (c : BareCompleter)
      → All (Fits u prefix) c.items
      → All (Fits u prefix) (call a c).items
  unfolding collect_stdlib
  call-Fits (adds name kind tier detail item_data) c h =
      add-Fits name kind tier detail item_data c h
  call-Fits (stdlib items) c h =
      if_keep (λ d. All (Fits u prefix) d.items) c.annotation_only c _ h
        (add_all_stdlib-Fits items c h)

  calls-Fits :
      (as_ : List Call) (c : BareCompleter)
      → All (Fits u prefix) c.items
      → All (Fits u prefix) (calls as_ c).items
  unfolding calls
  calls-Fits [] c h = h
  calls-Fits (a ∷ as_) c h = calls-Fits as_ (call a c) (call-Fits a c h)

  module _ (x : CompletionIndex)
      (spends : (i : x.Index) (name : Text) (n : ℕ)
        → (x.ensure_jar_definitions_for i name n).1 ≤ n) where
    -- The names fit, and the promotions stay within their cap.
    pub record IsWithin (w : BareCompletionWalk x) : Type 0 where
      pub fitting : All (Fits u prefix) w.completer.items
      pub capped : w.jar_promotion_attempts ≤ 5

    promote-IsWithin :
        (name : Text) (w : BareCompletionWalk x) → IsWithin w → IsWithin (promote x name w)
    unfolding promote
    promote-IsWithin name w v =
        let attempts = w.jar_promotion_attempts in
        let left = (x.ensure_jar_definitions_for w.index name (5 - attempts)).1 in
        let fewer : left ≤ 5 - attempts = spends w.index name (5 - attempts) in
        let tried : attempts + (5 - attempts + (2 ^ 64 - left)) % 2 ^ 64 ≤ 5 =
          omega (arith, v.capped, fewer) in
        if_keep IsWithin (not (x.has_definitions w.index name) && ltb w.jar_materializations 32) _ w
          (record { fitting = v.fitting; capped = tried }) v

    admit-IsWithin :
        (key : Text) (item : CompletionItem) (w : BareCompletionWalk x)
        → Fits u prefix item
        → IsWithin w
        → IsWithin (record w { completer = admit key item w.completer })
    admit-IsWithin key item w p v = record {
      fitting = admit-All (Fits u prefix) key item w.completer p v.fitting;
      capped = v.capped;
    }

    symbols-IsWithin :
        (ctx : CurrentFileCompletionContext) (name : Text) (score : ℕ) (fqns : List Text)
        (w : BareCompletionWalk x)
        → is_some (match_score u name prefix) ≡ true
        → IsWithin w
        → IsWithin (add_cross_package_symbols x u ctx name score fqns w)
    unfolding add_cross_package_symbols add_cross_package_symbol
    symbols-IsWithin ctx name score [] w p v = v
    symbols-IsWithin ctx name score (fqn ∷ fqns) w p v =
        symbols-IsWithin ctx name score fqns (add_cross_package_symbol x u ctx name fqn score w) p
          (admit-IsWithin _ _ w p v)

    names-IsWithin :
        (ctx : CurrentFileCompletionContext) (name : Text) (score : ℕ) (fqns : List Text)
        (w : BareCompletionWalk x)
        → is_some (match_score u name prefix) ≡ true
        → IsWithin w
        → IsWithin (add_names x u ctx name score fqns w)
    unfolding add_cross_package_name_without_imports
    names-IsWithin ctx name score [] w p v = admit-IsWithin name _ w p v
    names-IsWithin ctx name score (fqn ∷ fqns) w p v =
        symbols-IsWithin ctx name score (fqn ∷ fqns) w p v

    scored-IsWithin :
        (ctx : CurrentFileCompletionContext) (name : Text) (o : Option ℕ) (w : BareCompletionWalk x)
        → cross_package_score x u name prefix ≡ o
        → IsWithin w
        → IsWithin (add_cross_scored x u ctx name o w)
    unfolding cross_package_score
    scored-IsWithin ctx name none w e v = v
    scored-IsWithin ctx name (some s) w e v =
        if_keep IsWithin (contains w.completer.seen name) w _ v (
          names-IsWithin ctx name s (x.fqns_for_name (promote x name w).index name)
            (promote x name w) (score_within-matches u name prefix _ s e)
            (promote-IsWithin name w v))

    add_names-IsWithin :
        (ctx : CurrentFileCompletionContext) (names : List Text) (w : BareCompletionWalk x)
        → IsWithin w
        → IsWithin (add_cross_package_names x u prefix ctx names w)
    unfolding add_cross_package_names add_cross_package_name
    add_names-IsWithin ctx [] w v = v
    add_names-IsWithin ctx (name ∷ names) w v =
        add_names-IsWithin ctx names (add_cross_package_name x u prefix ctx name w) (
          if_keep IsWithin _ w _ v
            (scored-IsWithin ctx name (cross_package_score x u name prefix) w refl v))

    -- After the tiers of the file, of its package and of the standard library, in any order, and
    -- the names of other packages, every item fits what was typed, and at most five promotions
    -- that block were tried. A promotion is taken to leave no more than its budget.
    pub collect_cross_package-IsWithin :
        (ctx : CurrentFileCompletionContext) (cache : List Text) (index : x.Index) (as_ : List Call)
        (snippets annotation_only : Bool)
        → IsWithin (
            collect_cross_package x u prefix ctx cache (record {
              index = index;
              completer = calls as_ (new_completer u prefix snippets annotation_only);
              jar_promotion_attempts = 0;
              jar_materializations = 0;
            }))
    unfolding collect_cross_package new_completer
    collect_cross_package-IsWithin ctx cache index as_ snippets annotation_only =
        let c = calls as_ (new_completer u prefix snippets annotation_only) in
        let w : BareCompletionWalk x = record {
          index = index;
          completer = c;
          jar_promotion_attempts = 0;
          jar_materializations = 0;
        } in
        let v : IsWithin w = record {
          fitting = calls-Fits as_ (new_completer u prefix snippets annotation_only) tt;
          capped = omega arith;
        } in
        if_keep IsWithin _ w _ v (add_names-IsWithin ctx cache w v)
