-- ===== src/Resolver/Hierarchy/Sound.antt =====
-- What the walks over supertypes give: resolver/hierarchy.rs.
use mathlib.Core.List.{Memᴰ}
use kmp_lsp.Base.{
  ℕ, zero, suc, ◌+◌, ◌≤◌, ◌≡◌, ◌≢◌, refl, Bool, true, false, inl, inr, List, [], ◌∷◌, arith,
  Bool-cases, All, All-append, if_keep, if◌then◌else◌,
}
use kmp_lsp.Text.{Text, text_eq}
use kmp_lsp.Text.Laws.{text_eq_iff}
use kmp_lsp.Resolver.Hierarchy.{
  Class, HierarchyWalker, each, recurse, walk_hierarchy, visit, seen, supertype_targets, Resolver,
  if_named, supertype_chain_contains, receiver_type_agreement, ReceiverTypeAgreement, exact,
  inherited, unrelated, unresolvable,
}

pub All-of {ℓ κ} :
    {A : Type ℓ} (P : A → Type κ) (xs : List A) → ((x : A) → Memᴰ x xs → P x) → All P xs
All-of P [] f = tt
All-of P (x ∷ xs) f = (f x (Memᴰ.head refl), All-of P xs (λ y m. f y (Memᴰ.tail m)))

module _ {I : Type 0} (targets : I → Class → I × List Class) (start : Class) where
  -- A class that some look-ups lead to from the start, in as many steps.
  pub data Ancestor : ℕ → Class → Type 0 where
    itself : Ancestor 0 start
    further :
        {k : ℕ} {c d : Class} (i : I) → Ancestor k c → Memᴰ d (targets i c).1 → Ancestor (suc k) d

module _ {I T : Type 0} (targets : I → Class → I × List Class) (collect : I → Class → List T)
    (start : Class) (P : T → Type 0) where
  each-All :
      (go : Class → HierarchyWalker targets collect → HierarchyWalker targets collect)
      (Q : Class → Type 0) (cs : List Class) (w : HierarchyWalker targets collect)
      → ((c : Class) (w : HierarchyWalker targets collect)
          → Q c
          → All P w.items
          → All P (go c w).items)
      → ((c : Class) (i : I) → Q c → All P (collect i c))
      → All Q cs
      → All P w.items
      → All P (each targets collect go cs w).items
  unfolding each
  each-All go Q [] w step here qs h = h
  each-All go Q (c ∷ cs) w step here (q, qs) h =
      each-All go Q cs (if seen c w.visited then w else go c (visit targets collect c w)) step here
        qs
        (if_keep (λ v. All P v.items) (seen c w.visited) w (go c (visit targets collect c w)) h
          (step c (visit targets collect c w) q
            (All-append P w.items (collect w.idx c) h (here c w.idx q))))

  recurse-All :
      (n k : ℕ) (c : Class) (w : HierarchyWalker targets collect)
      → ((m : ℕ) (d : Class) (i : I) → m ≤ k + n → Ancestor targets start m d → All P (collect i d))
      → Ancestor targets start k c
      → All P w.items
      → All P (recurse targets collect n c w).items
  unfolding recurse
  recurse-All zero k c w f a h = h
  recurse-All (suc n) k c w f a h =
      each-All (recurse targets collect n) (Ancestor targets start (suc k)) (targets w.idx c).1
        (record w { idx = (targets w.idx c).0 })
        (λ d w' b g. recurse-All n (suc k) d w' (λ m e i le. f m e i (omega (arith, le))) b g)
        (λ d i b. f (suc k) d i (omega arith) b)
        (All-of (Ancestor targets start (suc k)) (targets w.idx c).1 (λ d m. further w.idx a m)) h

  -- The walk gives nothing but what it collects at classes that at most `max_depth` steps lead to.
  walk_hierarchy-All :
      (idx : I) (max_depth : ℕ)
      → ((m : ℕ) (d : Class) (i : I)
          → m ≤ max_depth
          → Ancestor targets start m d
          → All P (collect i d))
      → All P (walk_hierarchy targets collect idx start max_depth)
  unfolding walk_hierarchy
  walk_hierarchy-All idx n f =
      recurse-All n 0 start (record { idx = idx; visited = start ∷ []; items = [] })
        (λ m d i le. f m d i (omega (arith, le))) itself tt

module _ (r : Resolver) where
  abbrev pub Inherits : Text → Text → Text → Type 0
  Inherits candidate_type candidate_uri target_type =
      (m : ℕ) × (d : Class) × (m ≤ 12)
      × Ancestor (supertype_targets r candidate_uri) (candidate_type, candidate_uri) m d
      × (d.0 ≡ target_type)

  if_named-All :
      (candidate_type candidate_uri target_type : Text) (m : ℕ) (d : Class) (i : r.Index)
      → m ≤ 12
      → Ancestor (supertype_targets r candidate_uri) (candidate_type, candidate_uri) m d
      → All
          (λ (t : Bool). Inherits candidate_type candidate_uri target_type)
          (if_named target_type i d)
  if_named-All c u t m (n, v) i le a = elim (Bool-cases (text_eq n t)) [
    | inl e ↦ rw e ((m, (n, v), le, a, (text_eq_iff n t).0 e), tt)
    | inr e ↦ rw e tt
  ]

  chain-Inherits :
      (idx : r.Index) (candidate_type candidate_uri target_type : Text)
      → supertype_chain_contains r idx candidate_type candidate_uri target_type ≡ true
      → Inherits candidate_type candidate_uri target_type
  unfolding supertype_chain_contains
  chain-Inherits idx c u t h =
      from_first (walk_hierarchy (supertype_targets r u) (if_named t) idx (c, u) 12)
        (walk_hierarchy-All (supertype_targets r u) (if_named t) (c, u) (λ b. Inherits c u t) idx 12
          (if_named-All c u t))
        h
    where
      from_first :
          (ts : List Bool)
          → All (λ (b : Bool). Inherits c u t) ts
          → elim ts [ [] ↦ false | b ∷ bs ↦ true ] ≡ true
          → Inherits c u t
      from_first [] a h = cc
      from_first (b ∷ bs) (p, a) h = p

  -- What each answer says of the types.
  abbrev pub Means : r.Index → Text → Text → Text → ReceiverTypeAgreement → Type 0
  Means idx c u t exact = c ≡ t
  Means idx c u t unresolvable = (c ≢ t) × (r.has_type_definition idx c ≡ false)
  Means idx c u t inherited = (c ≢ t) × (r.has_type_definition idx c ≡ true) × Inherits c u t
  Means idx c u t unrelated =
      (c ≢ t)
      × (r.has_type_definition idx c ≡ true)
      × (supertype_chain_contains r idx c u t ≡ false)

  -- The answer is `exact` for the target itself, `unresolvable` only for another type that has no
  -- definition, `inherited` only for another type with a definition that at most twelve look-ups
  -- of supertypes lead from to a class of the target's name, and `unrelated` only for one with a
  -- definition whose walk finds no such class.
  pub receiver_type_agreement-Means :
      (idx : r.Index) (candidate_type candidate_uri target_type : Text)
      → Means idx candidate_type candidate_uri target_type
          (receiver_type_agreement r idx candidate_type candidate_uri target_type)
  unfolding receiver_type_agreement
  receiver_type_agreement-Means idx c u t = elim (Bool-cases (text_eq c t)) [
    | inl e ↦ rw e ((text_eq_iff c t).0 e)
    | inr e ↦
        let ne : c ≢ t = λ (h : c ≡ t). ground (arith, (text_eq_iff c t).1 h) in
        elim (Bool-cases (r.has_type_definition idx c)) [
          | inl f ↦ elim (Bool-cases (supertype_chain_contains r idx c u t)) [
            | inl g ↦ rw (e, f, g) (ne, f, chain-Inherits idx c u t g)
            | inr g ↦ rw (e, f, g) (ne, f, g)
          ]
          | inr f ↦ rw (e, f) (ne, f)
        ]
  ]
