-- ===== src/Signature/Reach.antt =====
-- Whether a file's declarations can be reached by an import: is_import_reachable of
-- indexer/infer/sig.rs, with ImportEntry::covers of types.rs.
use kmp_lsp.Base.{
  ◌≡◌, refl, sym, ap, ◌∙◌, Bool, true, false, ◌&&◌, ◌||◌, Option, none, some, List, [], ◌∷◌, ◌++◌,
  ◌⊎◌, ◌↔◌, arith, inl, inr, Bool-cases, Option-cases, if◌then◌else◌, any, ◌>>=◌, unwrap_or,
  and-true,
}
use kmp_lsp.Text.{Text, codes, text_eq, strip_prefix, ends_with, contains}
use kmp_lsp.Text.Laws.{text_eq_iff, text_eq_refl, strip_prefix-append, strip_prefix-eq_some}
use kmp_lsp.Resolver.Names.{ImportEntry}

-- `import a.b.Outer.C` covers `C` of `a.b`.
abbrev nested_in : Text → Option Text → Bool
nested_in symbol_name none = false
nested_in symbol_name (some rest) = text_eq rest symbol_name || ends_with (b'.' ∷ symbol_name) rest

abbrev path_covers : Text → Text → Text → Bool
path_covers full_path def_pkg symbol_name =
    text_eq full_path (def_pkg ++ b'.' ∷ symbol_name)
    || nested_in symbol_name (strip_prefix def_pkg full_path >>= strip_prefix (codes "."))

unfoldable pub covers : ImportEntry → Text → Text → Bool
covers i def_pkg symbol_name =
    if i.is_star
    then text_eq i.full_path def_pkg
    else text_eq i.local_name symbol_name && path_covers i.full_path def_pkg symbol_name

-- What is read of a file: its package, if it has one, and its imports.
pub record FileImports : Type 0 where
  pub package_name : Option Text
  pub imports : List ImportEntry

abbrev default_packages : List Text
default_packages =
    codes "kotlin"
    ∷ codes "kotlin.annotation"
    ∷ codes "kotlin.collections"
    ∷ codes "kotlin.comparisons"
    ∷ codes "kotlin.io"
    ∷ codes "kotlin.ranges"
    ∷ codes "kotlin.sequences"
    ∷ codes "kotlin.text"
    ∷ codes "java.lang"
    ∷ []

abbrev reachable_from : FileImports → Text → Text → Bool
reachable_from caller symbol_name def_pkg =
    text_eq (unwrap_or caller.package_name []) def_pkg
    || any (λ i. covers i def_pkg symbol_name) caller.imports
    || contains default_packages def_pkg

-- Without the data of a file or without its package nothing is filtered.
abbrev known_reachable : Option FileImports → Option FileImports → Text → Bool
known_reachable (some caller) (some def) symbol_name = elim def.package_name [
  | none ↦ true
  | some def_pkg ↦ reachable_from caller symbol_name def_pkg
]
known_reachable (some caller) none symbol_name = true
known_reachable none def symbol_name = true

unfoldable pub is_import_reachable : (Text → Option FileImports) → Text → Text → Text → Bool
is_import_reachable files caller_uri def_uri symbol_name =
    text_eq caller_uri def_uri || known_reachable (files caller_uri) (files def_uri) symbol_name

ends_with-append : (p a : Text) → ends_with p (a ++ p) ≡ true
ends_with-append [] [] = refl
ends_with-append (c ∷ p) [] = rw (text_eq_refl p) (ground arith)
ends_with-append p (c ∷ a) = let ih = ends_with-append p a in ground (arith, ih)

ends_with-suffix : (p s : Text) → ends_with p s ≡ true → (a : Text) × (s ≡ a ++ p)
ends_with-suffix p [] h = ([], sym ((text_eq_iff p []).0 h))
ends_with-suffix p (c ∷ s) h = elim (Bool-cases (text_eq p (c ∷ s))) [
  | inl e ↦ ([], sym ((text_eq_iff p (c ∷ s)).0 e))
  | inr e ↦ let (a, k) = ends_with-suffix p s (ground (arith, e, h)) in (c ∷ a, ap (λ x. c ∷ x) k)
]

-- A package, a dot, perhaps segments that each end in a dot, and the name.
abbrev pub IsBelow : Text → Text → Text → Type 0
IsBelow full_path def_pkg symbol_name =
    (full_path ≡ def_pkg ++ b'.' ∷ symbol_name)
    ⊎ ((a : Text) × (full_path ≡ def_pkg ++ b'.' ∷ (a ++ b'.' ∷ symbol_name)))

abbrev pub Covers : ImportEntry → Text → Text → Type 0
Covers i def_pkg symbol_name =
    ((i.is_star ≡ true) × (i.full_path ≡ def_pkg))
    ⊎ ((i.is_star ≡ false) × (i.local_name ≡ symbol_name) × IsBelow i.full_path def_pkg symbol_name)

nested_in-IsBelow :
    (full_path def_pkg symbol_name : Text) (o : Option Text)
    → strip_prefix def_pkg full_path ≡ o
    → nested_in symbol_name (o >>= strip_prefix (codes ".")) ≡ true
    → IsBelow full_path def_pkg symbol_name
nested_in-IsBelow f p n none e h = cc
nested_in-IsBelow f p n (some r) e h = elim (Option-cases (strip_prefix (codes ".") r)) [
  | inl k ↦ let g : false ≡ true = rw k at h in cc
  | inr (rest, k) ↦
      let whole : f ≡ p ++ b'.' ∷ rest =
        strip_prefix-eq_some p f r e
        ∙ ap (λ x. p ++ x) (strip_prefix-eq_some (codes ".") r rest k) in
      let found : (text_eq rest n || ends_with (b'.' ∷ n) rest) ≡ true = rw k at h in
      elim (Bool-cases (text_eq rest n)) [
        | inl t ↦ inl (whole ∙ ap (λ x. p ++ b'.' ∷ x) ((text_eq_iff rest n).0 t))
        | inr t ↦
            let (a, s) = ends_with-suffix (b'.' ∷ n) rest (ground (arith, t, found)) in
            inr (a, whole ∙ ap (λ x. p ++ b'.' ∷ x) s)
      ]
]

path_covers_iff :
    (full_path def_pkg symbol_name : Text)
    → (path_covers full_path def_pkg symbol_name ≡ true) ↔ IsBelow full_path def_pkg symbol_name
path_covers_iff f p n = (
  λ h. elim (Bool-cases (text_eq f (p ++ b'.' ∷ n))) [
    | inl e ↦ inl ((text_eq_iff f (p ++ b'.' ∷ n)).0 e)
    | inr e ↦ nested_in-IsBelow f p n (strip_prefix p f) refl (ground (arith, e, h))
  ],
  λ k. elim k [
    | inl e ↦ let t = (text_eq_iff f (p ++ b'.' ∷ n)).1 e in ground (arith, t)
    | inr (a, e) ↦
        let there : nested_in n (strip_prefix p f >>= strip_prefix (codes ".")) ≡ true =
          rw (e, strip_prefix-append p (b'.' ∷ (a ++ b'.' ∷ n)), ends_with-append (b'.' ∷ n) a)
            (ground arith) in
        ground (arith, there)
  ],
)

-- An import covers a name of a package exactly if it is a star import of that package, or it gives
-- the name and its path is the package, a dot, whatever ends in a dot or nothing, and the name.
pub covers_iff :
    (i : ImportEntry) (def_pkg symbol_name : Text)
    → (covers i def_pkg symbol_name ≡ true) ↔ Covers i def_pkg symbol_name
unfolding covers
covers_iff i p n = elim (Bool-cases i.is_star) [
  | inl e ↦ rw e (
    λ h. inl (refl, (text_eq_iff i.full_path p).0 h),
    λ k. elim k [ inl (s, f) ↦ (text_eq_iff i.full_path p).1 f | inr (s, l, b) ↦ cc s ],
  )
  | inr e ↦ rw e (
    λ h.
        let both = and-true (text_eq i.local_name n) (path_covers i.full_path p n) h in
        inr
          (refl, (text_eq_iff i.local_name n).0 both.0, (path_covers_iff i.full_path p n).0 both.1),
    λ k. elim k [
      | inl (s, f) ↦ cc s
      | inr (s, l, b) ↦
          let one = (text_eq_iff i.local_name n).1 l in
          let two = (path_covers_iff i.full_path p n).1 b in ground (arith, one, two)
    ],
  )
]
