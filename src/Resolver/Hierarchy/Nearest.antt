-- ===== src/Resolver/Hierarchy/Nearest.antt =====
-- The walk by breadth gives what the nearest level has: resolver/hierarchy.rs.
use mathlib.Core.Path.{sym, subst}
use mathlib.Core.List.{Memᴰ}
use mathlib.Core.List.Memᴰ
use kmp_lsp.Base.{
  ℕ, zero, suc, ◌+◌, ◌≤◌, ◌<◌, ◌≡◌, ◌≢◌, refl, true, false, inl, inr, ◌⊎◌, List, [], ◌∷◌, arith,
  Bool-cases, All, All-append, if_keep, if◌then◌else◌, is_empty,
}
use kmp_lsp.Resolver.Hierarchy.{
  Class, Level, enter, enter_all, scan_level, levels_from, walk_hierarchy_breadth_first, seen,
}
use kmp_lsp.Resolver.Hierarchy.Sound.{All-of}
use kmp_lsp.Resolver.Hierarchy.Levels.{
  targets, collect, Extends, scan_level-Extends, scan_level-covers,
}

is_empty_eq {ℓ} : {A : Type ℓ} (xs : List A) → is_empty xs ≡ true → xs ≡ []
is_empty_eq [] h = refl
is_empty_eq (x ∷ xs) h = cc

not_empty_ne {ℓ} : {A : Type ℓ} (xs : List A) → is_empty xs ≡ false → xs ≢ []
not_empty_ne [] h = cc
not_empty_ne (x ∷ xs) h = λ (e : x ∷ xs ≡ []). cc

module _ (edges : Class → List Class) (start : Class) where
  -- The classes that so many steps to a supertype lead to.
  pub data PathTo : ℕ → Class → Type 0 where
    itself : PathTo 0 start
    further : {k : ℕ} {c d : Class} → PathTo k c → Memᴰ d (edges c) → PathTo (suc k) d

  first-near : (m : ℕ) (c : Class) → m ≤ 0 → PathTo m c → Memᴰ c (start ∷ [])
  first-near m c le itself = Memᴰ.head refl
  first-near m c le (further {k = j} p h) = absurd (omega (arith, le))

module _ {T : Type 0} (edges : Class → List Class) (gives : Class → List T) (start : Class) where
  abbrev pub GivesFrom : ℕ → T → Type 0
  GivesFrom k t = (c : Class) × PathTo edges start k c × Memᴰ t (gives c)

  -- No class but the start gives anything within so many steps.
  abbrev pub Quiet : ℕ → Type 0
  Quiet k = (m : ℕ) (c : Class) → m ≤ k → PathTo edges start m c → (c ≡ start) ⊎ (gives c ≡ [])

  -- What the walk promises: nothing within the depth, or what the nearest level that gives
  -- anything has.
  abbrev pub Nearest : ℕ → List T → Type 0
  Nearest max_depth items =
      ((items ≡ []) × Quiet max_depth)
      ⊎ ((k : ℕ) × (k < max_depth) × Quiet k × All (GivesFrom (suc k)) items × (items ≢ []))

  -- Where the walk stands before it scans a level.
  record Frontier (k : ℕ) (visited current : List Class) : Type 0 where
    reached : (c : Class) → Memᴰ c current → PathTo edges start k c
    near : (m : ℕ) (c : Class) → m ≤ k → PathTo edges start m c → Memᴰ c visited
    closed :
        (c : Class)
        → Memᴰ c visited
        → Memᴰ c current ⊎ ((d : Class) → Memᴰ d (edges c) → Memᴰ d visited)
    quiet : (c : Class) → Memᴰ c visited → (c ≡ start) ⊎ (gives c ≡ [])

  -- With no class ahead, every ancestor was visited.
  all_visited :
      (k : ℕ) (visited : List Class)
      → Frontier k visited []
      → (m : ℕ) (c : Class) → PathTo edges start m c
      → Memᴰ c visited
  all_visited k visited f m c itself = f.near 0 start (omega arith) itself
  all_visited k visited f m c (further {k = j} {c = b} p h) =
      elim (f.closed b (all_visited k visited f j b p)) [
        | inl n ↦ absurd (Memᴰ.not-nil n)
        | inr g ↦ g c h
      ]

  first_Frontier : Frontier 0 (start ∷ []) (start ∷ [])
  first_Frontier = record {
    reached = λ c m. subst (PathTo edges start 0) (sym (Memᴰ.eq_of_singleton m)) itself;
    near = first-near edges start;
    closed = λ c m. inl m;
    quiet = λ c m. inl (Memᴰ.eq_of_singleton m);
  }

module _ {I T : Type 0} (edges : Class → List Class) (gives : Class → List T) (start : Class) where
  record Reached (k : ℕ) (l : Level {I = I} (targets edges gives) (collect edges gives))
      : Type 0 where
    given : All (GivesFrom edges gives start k) l.found
    ahead : (c : Class) → Memᴰ c l.next_level → PathTo edges start k c

  enter-Reached :
      (k : ℕ) (c : Class) (l : Level {I = I} (targets edges gives) (collect edges gives))
      → PathTo edges start k c
      → Reached k l
      → Reached k (enter (targets edges gives) (collect edges gives) c l)
  enter-Reached k c l p r = record {
    given =
        All-append (GivesFrom edges gives start k) l.found (gives c) r.given
          (All-of (GivesFrom edges gives start k) (gives c) (λ t m. (c, p, m)));
    ahead = λ d m. elim (Memᴰ.append_cases l.next_level m) [
      | inl h ↦ r.ahead d h
      | inr h ↦ subst (PathTo edges start k) (sym (Memᴰ.eq_of_singleton h)) p
    ];
  }

  enter_all-Reached :
      (k : ℕ) (cs : List Class) (l : Level {I = I} (targets edges gives) (collect edges gives))
      → ((c : Class) → Memᴰ c cs → PathTo edges start k c)
      → Reached k l
      → Reached k (enter_all (targets edges gives) (collect edges gives) cs l)
  unfolding enter_all
  enter_all-Reached k [] l f r = r
  enter_all-Reached k (c ∷ cs) l f r =
      enter_all-Reached k cs
        (if seen c l.visited then l else enter (targets edges gives) (collect edges gives) c l)
        (λ d m. f d (Memᴰ.tail m))
        (if_keep (Reached k) (seen c l.visited) l
          (enter (targets edges gives) (collect edges gives) c l) r
          (enter-Reached k c l (f c (Memᴰ.head refl)) r))

  scan_level-Reached :
      (k : ℕ) (cs : List Class) (l : Level {I = I} (targets edges gives) (collect edges gives))
      → ((c : Class) → Memᴰ c cs → PathTo edges start k c)
      → Reached (suc k) l
      → Reached (suc k) (scan_level (targets edges gives) (collect edges gives) cs l)
  unfolding scan_level
  scan_level-Reached k [] l f r = r
  scan_level-Reached k (c ∷ cs) l f r =
      scan_level-Reached k cs (enter_all (targets edges gives) (collect edges gives) (edges c) l)
        (λ d m. f d (Memᴰ.tail m))
        (enter_all-Reached (suc k) (edges c) l (λ d m. further (f c (Memᴰ.head refl)) m) r)

  abbrev pub scanned :
      I → List Class → List Class → Level {I = I} (targets edges gives) (collect edges gives)
  scanned idx visited current =
      scan_level (targets edges gives) (collect edges gives) current
        (record { idx = idx; visited = visited; found = []; next_level = [] })

  module _ (idx : I) (visited current : List Class) (k : ℕ)
      (f : Frontier edges gives start k visited current) where
    extends :
        Extends edges gives
          (record { idx = idx; visited = visited; found = []; next_level = [] })
          (scanned idx visited current)
    extends =
        scan_level-Extends edges gives current
          (record { idx = idx; visited = visited; found = []; next_level = [] })

    edges-visited :
        (c d : Class)
        → Memᴰ c visited
        → Memᴰ d (edges c)
        → Memᴰ d (scanned idx visited current).visited
    edges-visited c d m h = elim (f.closed c m) [
      | inl n ↦
          scan_level-covers edges gives current
            (record { idx = idx; visited = visited; found = []; next_level = [] }) c d n h
      | inr g ↦ extends.old d (g d h)
    ]

    near-next :
        (m : ℕ) (c : Class)
        → m ≤ suc k
        → PathTo edges start m c
        → Memᴰ c (scanned idx visited current).visited
    near-next m c le itself = extends.old start (f.near 0 start (omega arith) itself)
    near-next m c le (further {k = j} {c = b} p h) =
        edges-visited b c (f.near j b (omega (arith, le)) p) h

    level_facts : Reached (suc k) (scanned idx visited current)
    level_facts =
        scan_level-Reached k current
          (record { idx = idx; visited = visited; found = []; next_level = [] }) f.reached
          (record { given = tt; ahead = λ c m. absurd (Memᴰ.not-nil m) })

    next_Frontier :
        (scanned idx visited current).found ≡ []
        → Frontier edges gives start
            (suc k)
            (scanned idx visited current).visited
            (scanned idx visited current).next_level
    next_Frontier none_found = record {
      reached = level_facts.ahead;
      near = near-next;
      closed = λ c m. elim (extends.new c m) [
        | inl old ↦ inr (λ d h. edges-visited c d old h)
        | inr new ↦ inl new
      ];
      quiet = λ c m. elim (extends.new c m) [
        | inl old ↦ f.quiet c old
        | inr new ↦ elim (extends.quiet none_found c new) [
          | inl h ↦ absurd (Memᴰ.not-nil h)
          | inr e ↦ inr e
        ]
      ];
    }

  levels_from-Nearest :
      (n k : ℕ) (idx : I) (visited current : List Class)
      → Frontier edges gives start k visited current
      → Nearest edges gives start
          (k + n)
          (levels_from (targets edges gives) (collect edges gives) n idx visited current)
  unfolding levels_from
  levels_from-Nearest zero k idx visited current f =
      inl (refl, λ m c le p. f.quiet c (f.near m c (omega (arith, le)) p))
  levels_from-Nearest (suc n) k idx visited current f =
      let l : Level {I = I} (targets edges gives) (collect edges gives) =
        scanned idx visited current in
      elim (Bool-cases (is_empty l.found)) [
        | inr some_found ↦ rw some_found (
            inr (
              k,
              omega arith,
              λ m c le p. f.quiet c (f.near m c le p),
              (level_facts idx visited current k f).given,
              not_empty_ne l.found some_found,
            ))
        | inl none_found ↦
            let g = next_Frontier idx visited current k f (is_empty_eq l.found none_found) in
            elim (Bool-cases (is_empty l.next_level)) [
              | inl done ↦
                  let g' : Frontier edges gives start (suc k) l.visited [] =
                    subst (Frontier edges gives start (suc k) l.visited)
                      (is_empty_eq l.next_level done) g in
                  rw (none_found, done)
                    (inl (
                      refl,
                      λ m c le p.
                          g.quiet c (all_visited edges gives start (suc k) l.visited g' m c p),
                    ))
              | inr more ↦
                  let step : suc k + n ≡ k + suc n = omega arith in
                  rw (none_found, more)
                    (subst
                      (λ d. Nearest edges gives start d (
                        levels_from (targets edges gives) (collect edges gives) n l.idx l.visited
                          l.next_level))
                      step (levels_from-Nearest n (suc k) l.idx l.visited l.next_level g))
            ]
      ]

  -- Where the look-ups leave the index as it is, whatever the supertypes, cycles included: either
  -- the walk by breadth returns nothing and no class within `max_depth` steps, other than the
  -- start, gives anything; or it returns something, all of it from one level within that depth,
  -- and no class of a nearer level, other than the start, gives anything.
  pub walk_hierarchy_breadth_first-Nearest :
      (idx : I) (max_depth : ℕ)
      → Nearest edges gives start max_depth (
          walk_hierarchy_breadth_first
            (targets edges gives)
            (collect edges gives)
            idx
            start
            max_depth)
  unfolding walk_hierarchy_breadth_first
  walk_hierarchy_breadth_first-Nearest idx max_depth =
      let zero_add : 0 + max_depth ≡ max_depth = omega arith in
      subst
        (λ d. Nearest edges gives start d (
          levels_from (targets edges gives) (collect edges gives) max_depth idx (start ∷ [])
            (start ∷ [])))
        zero_add
        (levels_from-Nearest max_depth 0 idx (start ∷ []) (start ∷ [])
          (first_Frontier edges gives start))
