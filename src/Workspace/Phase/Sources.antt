-- ===== src/Workspace/Phase/Sources.antt =====
-- The list that `resolve_sources` builds.
use mathlib.Core.Path.{subst}
use kmp_lsp.Base.{
  ◌≡◌, ◌≢◌, refl, sym, ◌∙◌, ap, Bool, true, false, ◌&&◌, ◌||◌, Option, none, some, List, [], ◌∷◌,
  ◌++◌, String, arith, inl, inr, All, Bool-cases, is_empty, if◌then◌else◌,
}
use text.Mathlib.Text.{◌==◌}
use text.Mathlib.TextEquality.{eq_iff}
use kmp_lsp.Workspace.Phase
use kmp_lsp.Workspace.Phase.{Config, Discovery, contains, push, push_all, resolve_sources}

abbrev pub Distinct : List String → Type 0
Distinct [] = Unit
Distinct (s ∷ ss) = All (λ t. s ≢ t) ss × Distinct ss

absent : (s : String) (ps : List String) → contains s ps ≡ false → All (λ t. t ≢ s) ps
absent s [] e = tt
absent s (t ∷ ps) e =
    (λ q. absurd (ground (arith, (eq_iff s t).1 (sym q))), absent s ps (ground arith))

All-last :
    (s t : String) (ps : List String)
    → All (λ u. t ≢ u) ps
    → t ≢ s
    → All (λ u. t ≢ u) (ps ++ s ∷ [])
All-last s t [] h n = (n, tt)
All-last s t (p ∷ ps) h n = (h.0, All-last s t ps h.1 n)

append-Distinct :
    (s : String) (ps : List String) → All (λ t. t ≢ s) ps → Distinct ps → Distinct (ps ++ s ∷ [])
append-Distinct s [] h d = (tt, tt)
append-Distinct s (p ∷ ps) h d = (All-last s p ps d.0 h.0, append-Distinct s ps h.1 d.1)

push-Distinct : (s : String) (ps : List String) → Distinct ps → Distinct (push s ps)
unfolding push
push-Distinct s ps d = elim (Bool-cases (contains s ps)) [
  | inl e ↦ rw e d
  | inr e ↦ rw e (append-Distinct s ps (absent s ps e) d)
]

push_all-Distinct : (ss ps : List String) → Distinct ps → Distinct (push_all ss ps)
unfolding push_all
push_all-Distinct [] ps d = d
push_all-Distinct (s ∷ ss) ps d = push_all-Distinct ss (push s ps) (push-Distinct s ps d)

contains-append :
    (s t : String) (ps : List String) → contains s (ps ++ t ∷ []) ≡ (contains s ps || s == t)
contains-append s t [] = ground arith
contains-append s t (p ∷ ps) = ground (arith, contains-append s t ps)

contains-push :
    (s t : String) (ps : List String) → contains s (push t ps) ≡ (contains s ps || s == t)
unfolding push
contains-push s t ps = elim (Bool-cases (contains t ps)) [
  | inl e ↦ elim (Bool-cases (s == t)) [
    | inl q ↦
        let here : contains s ps ≡ true = ap (λ u. contains u ps) ((eq_iff s t).0 q) ∙ e in
        ground arith
    | inr q ↦ ground arith
  ]
  | inr e ↦ rw e (contains-append s t ps)
]

contains-push_all :
    (s : String) (ts ps : List String)
    → contains s (push_all ts ps) ≡ (contains s ps || contains s ts)
unfolding push_all
contains-push_all s [] ps = ground arith
contains-push_all s (t ∷ ts) ps =
    ground (arith, contains-push_all s ts (push t ps), contains-push s t ps)

-- The source paths that the discovery finds behind the explicit ones and those of workspace.json.
abbrev pub default_paths : Option (List String) → Option String → List String
default_paths (some ss) o = ss
default_paths none none = []
default_paths none (some s) = s ∷ []

abbrev layout_paths : Discovery → Config → List String
layout_paths d c =
    if is_empty (d.json_source_paths c.root) then d.build_layout_source_paths c.root else []

push_layout :
    (b : Bool) (ts ps : List String)
    → (if b then push_all ts ps else ps) ≡ push_all (if b then ts else []) ps
unfolding push_all
push_layout true ts ps = refl
push_layout false ts ps = refl

push_configured-default_paths :
    (o : Option (List String)) (p : Option String) (ps : List String)
    → Phase.push_configured o p ps ≡ push_all (default_paths o p) ps
unfolding Phase.push_configured Phase.push_default push_all
push_configured-default_paths (some ss) p ps = refl
push_configured-default_paths none none ps = refl
push_configured-default_paths none (some s) ps = refl

abbrev pushed : Discovery → Config → List String
pushed d c = push_all (d.android_sdk_source_paths c.root) (
    push_all (default_paths (d.configured_source_paths c.root) d.default_sources) (
      push_all (layout_paths d c)
        (push_all (d.json_source_paths c.root) (push_all c.explicit_source_paths []))))

resolve_sources-pushed : (d : Discovery) (c : Config) → resolve_sources d c ≡ pushed d c
unfolding resolve_sources
resolve_sources-pushed d c =
    let json : List String =
      push_all (d.json_source_paths c.root) (push_all c.explicit_source_paths []) in
    ap (push_all (d.android_sdk_source_paths c.root)) (
      push_configured-default_paths (d.configured_source_paths c.root) d.default_sources (
        if is_empty (d.json_source_paths c.root)
        then push_all (d.build_layout_source_paths c.root) json
        else json)
      ∙ ap (push_all (default_paths (d.configured_source_paths c.root) d.default_sources)) (
          push_layout (is_empty (d.json_source_paths c.root)) (d.build_layout_source_paths c.root)
            json))

-- The source paths of a workspace are listed once each.
resolve_sources-Distinct : (d : Discovery) (c : Config) → Distinct (resolve_sources d c)
resolve_sources-Distinct d c = subst Distinct (sym (resolve_sources-pushed d c)) (
    push_all-Distinct (d.android_sdk_source_paths c.root) _ (
      push_all-Distinct (default_paths (d.configured_source_paths c.root) d.default_sources) _ (
        push_all-Distinct (layout_paths d c) _ (
          push_all-Distinct (d.json_source_paths c.root) _
            (push_all-Distinct c.explicit_source_paths [] tt)))))

contains-if :
    (s : String) (b : Bool) (ts : List String)
    → contains s (if b then ts else []) ≡ (b && contains s ts)
contains-if s true ts = refl
contains-if s false ts = refl

-- A path is among the source paths exactly when it is explicit, or in workspace.json, or in the
-- build layout where workspace.json names none, or in the configured list, or the default
-- directory where there is no such list, or in the Android SDK.
resolve_sources-contains :
    (d : Discovery) (c : Config) (s : String)
    → contains s (resolve_sources d c) ≡ (
        contains s c.explicit_source_paths
        || contains s (d.json_source_paths c.root)
        || (is_empty (d.json_source_paths c.root)
            && contains s (d.build_layout_source_paths c.root))
        || contains s (default_paths (d.configured_source_paths c.root) d.default_sources)
        || contains s (d.android_sdk_source_paths c.root))
resolve_sources-contains d c s =
    let e : List String = c.explicit_source_paths in
    let j : List String = d.json_source_paths c.root in
    let l : List String = layout_paths d c in
    let f : List String = default_paths (d.configured_source_paths c.root) d.default_sources in
    let a : List String = d.android_sdk_source_paths c.root in
    let none_yet : List String = [] in
    rw (
      resolve_sources-pushed d c,
      contains-push_all s a (push_all f (push_all l (push_all j (push_all e none_yet)))),
      contains-push_all s f (push_all l (push_all j (push_all e none_yet))),
      contains-push_all s l (push_all j (push_all e none_yet)),
      contains-push_all s j (push_all e none_yet),
      contains-push_all s e none_yet,
      contains-if s (is_empty j) (d.build_layout_source_paths c.root),
    )
