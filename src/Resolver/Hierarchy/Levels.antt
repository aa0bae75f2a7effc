-- ===== src/Resolver/Hierarchy/Levels.antt =====
-- One level of the walk by breadth over supertypes: resolver/hierarchy.rs.
use mathlib.Core.Path.{sym, subst}
use mathlib.Core.List.{Memᴰ}
use mathlib.Core.List.Memᴰ
use kmp_lsp.Base.{
  ◌≡◌, refl, true, inl, inr, ◌⊎◌, List, [], ◌∷◌, ◌++◌, arith, Bool-cases, if_keep, if◌then◌else◌,
}
use kmp_lsp.Text.Laws.{text_eq_iff}
use kmp_lsp.Resolver.Hierarchy.{Class, class_eq, Level, enter, enter_all, scan_level, seen}

class_eq_eq : (c d : Class) → class_eq c d ≡ true → c ≡ d
class_eq_eq (a, u) (b, v) h = ground (arith, text_eq_iff a b, text_eq_iff u v)

pub seen-mem : (c : Class) (cs : List Class) → seen c cs ≡ true → Memᴰ c cs
seen-mem c [] h = cc
seen-mem c (d ∷ ds) h = elim (Bool-cases (class_eq c d)) [
  | inl e ↦ Memᴰ.head (class_eq_eq c d e)
  | inr e ↦ Memᴰ.tail (seen-mem c ds (ground arith))
]

append-nil_left {ℓ} : {T : Type ℓ} (xs ys : List T) → xs ++ ys ≡ [] → xs ≡ []
append-nil_left [] ys h = refl
append-nil_left (x ∷ xs) ys h = cc

append-nil_right {ℓ} : {T : Type ℓ} (xs ys : List T) → xs ++ ys ≡ [] → ys ≡ []
append-nil_right [] ys h = h
append-nil_right (x ∷ xs) ys h = cc

-- The index is not changed by the look-ups: `edges` are the supertypes of a class, and `gives` what
-- the closure collects at it.
module _ {I T : Type 0} (edges : Class → List Class) (gives : Class → List T) where
  abbrev pub targets : I → Class → I × List Class
  targets i c = (i, edges c)

  abbrev pub collect : I → Class → List T
  collect i c = gives c

  -- How a later state of a level goes on from an earlier one.
  pub record Extends (l m : Level {I = I} targets collect) : Type 0 where
    pub old : (c : Class) → Memᴰ c l.visited → Memᴰ c m.visited
    pub new : (c : Class) → Memᴰ c m.visited → Memᴰ c l.visited ⊎ Memᴰ c m.next_level
    pub kept : (c : Class) → Memᴰ c l.next_level → Memᴰ c m.next_level
    pub silent : m.found ≡ [] → l.found ≡ []
    pub quiet :
        m.found ≡ [] → (c : Class) → Memᴰ c m.next_level → Memᴰ c l.next_level ⊎ (gives c ≡ [])

  Extends-same : (l : Level {I = I} targets collect) → Extends l l
  Extends-same l = record {
    old = λ c m. m;
    new = λ c m. inl m;
    kept = λ c m. m;
    silent = λ e. e;
    quiet = λ e c m. inl m;
  }

  Extends-trans : (l m n : Level {I = I} targets collect) → Extends l m → Extends m n → Extends l n
  Extends-trans l m n a b = record {
    old = λ c h. b.old c (a.old c h);
    new = λ c h. elim (b.new c h) [
      | inr k ↦ inr k
      | inl k ↦ elim (a.new c k) [ inl j ↦ inl j | inr j ↦ inr (b.kept c j) ]
    ];
    kept = λ c h. b.kept c (a.kept c h);
    silent = λ e. a.silent (b.silent e);
    quiet = λ e c h. elim (b.quiet e c h) [ inl k ↦ a.quiet (b.silent e) c k | inr k ↦ inr k ];
  }

  enter-Extends :
      (c : Class) (l : Level {I = I} targets collect) → Extends l (enter targets collect c l)
  enter-Extends c l = record {
    old = λ d m. Memᴰ.tail m;
    new = λ d m. elim (Memᴰ.cases_cons m) [
      | inl e ↦ inr (Memᴰ.append_right l.next_level (Memᴰ.head e))
      | inr k ↦ inl k
    ];
    kept = λ d m. Memᴰ.append_left (c ∷ []) m;
    silent = append-nil_left l.found (gives c);
    quiet = λ e d m. elim (Memᴰ.append_cases l.next_level m) [
      | inl k ↦ inl k
      | inr k ↦ inr (
          subst (λ x. gives x ≡ []) (sym (Memᴰ.eq_of_singleton k))
            (append-nil_right l.found (gives c) e))
    ];
  }

  enter_all-Extends :
      (cs : List Class) (l : Level {I = I} targets collect)
      → Extends l (enter_all targets collect cs l)
  unfolding enter_all
  enter_all-Extends [] l = Extends-same l
  enter_all-Extends (c ∷ cs) l =
      let l' : Level {I = I} targets collect =
        if seen c l.visited then l else enter targets collect c l in
      Extends-trans l l' (enter_all targets collect cs l')
        (if_keep (Extends l) (seen c l.visited) l (enter targets collect c l) (Extends-same l)
          (enter-Extends c l))
        (enter_all-Extends cs l')

  -- Every class that is offered is visited afterwards.
  entered :
      (c : Class) (l : Level {I = I} targets collect)
      → Memᴰ c (if seen c l.visited then l else enter targets collect c l).visited
  entered c l = elim (Bool-cases (seen c l.visited)) [
    | inl e ↦ rw e (seen-mem c l.visited e)
    | inr e ↦ rw e (Memᴰ.head refl)
  ]

  enter_all-covers :
      (cs : List Class) (l : Level {I = I} targets collect) (d : Class)
      → Memᴰ d cs
      → Memᴰ d (enter_all targets collect cs l).visited
  unfolding enter_all
  enter_all-covers [] l d m = absurd (Memᴰ.not-nil m)
  enter_all-covers (c ∷ cs) l d m =
      let l' : Level {I = I} targets collect =
        if seen c l.visited then l else enter targets collect c l in
      elim (Memᴰ.cases_cons m) [
        | inl e ↦
            (enter_all-Extends cs l').old d (subst (λ x. Memᴰ x l'.visited) (sym e) (entered c l))
        | inr k ↦ enter_all-covers cs l' d k
      ]

  pub scan_level-Extends :
      (cs : List Class) (l : Level {I = I} targets collect)
      → Extends l (scan_level targets collect cs l)
  unfolding scan_level
  scan_level-Extends [] l = Extends-same l
  scan_level-Extends (c ∷ cs) l =
      Extends-trans l (enter_all targets collect (edges c) l)
        (scan_level targets collect cs (enter_all targets collect (edges c) l))
        (enter_all-Extends (edges c) l)
        (scan_level-Extends cs (enter_all targets collect (edges c) l))

  -- The supertypes of the level's classes are visited afterwards.
  pub scan_level-covers :
      (cs : List Class) (l : Level {I = I} targets collect) (c d : Class)
      → Memᴰ c cs
      → Memᴰ d (edges c)
      → Memᴰ d (scan_level targets collect cs l).visited
  unfolding scan_level
  scan_level-covers [] l c d m h = absurd (Memᴰ.not-nil m)
  scan_level-covers (b ∷ cs) l c d m h =
      let l' : Level {I = I} targets collect = enter_all targets collect (edges b) l in
      elim (Memᴰ.cases_cons m) [
        | inl e ↦
            (scan_level-Extends cs l').old d
              (enter_all-covers (edges b) l d (subst (λ x. Memᴰ d (edges x)) e h))
        | inr k ↦ scan_level-covers cs l' c d k h
      ]
