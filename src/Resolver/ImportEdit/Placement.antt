-- ===== src/Resolver/ImportEdit/Placement.antt =====
-- The place of a new import (resolver/import_edit.rs).
use mathlib.Core.Path.{subst}
use kmp_lsp.Base.{
  ℕ, zero, suc, ◌+◌, ◌≤◌, ◌≡◌, refl, sym, ap, ◌∙◌, Bool, true, false, none, some, List, [], ◌∷◌,
  ◌++◌, arith, inl, inr, All, Bool-cases, Option-cases, append_assoc, length, length-append,
  length-take, take, drop, if◌then◌else◌,
}
use kmp_lsp.Text.{Text, codes, is_whitespace, trim_start}
use kmp_lsp.Resolver.ImportEdit.{
  rposition, position, import_insertion_line, is_import_line, is_package_line, make_import_edit,
  statement, new_lines, needs_blank, after_package, after_import,
}

module _ (p : Text → Bool) where
  rposition-length : (ls : List Text) (i : ℕ) → rposition p ls ≡ some i → suc i ≤ length ls
  rposition-length [] i e = absurd (cc)
  rposition-length (l ∷ ls) i e = elim (Option-cases (rposition p ls)) [
    | inl n ↦ ground arith
    | inr (j, n) ↦ let ih = rposition-length ls j n in ground arith
  ]

  position-length : (ls : List Text) (i : ℕ) → position p ls ≡ some i → suc i ≤ length ls
  position-length [] i e = absurd (cc)
  position-length (l ∷ ls) i e = elim (Option-cases (position p ls)) [
    | inl n ↦ ground arith
    | inr (j, n) ↦ let ih = position-length ls j n in ground arith
  ]

  rposition-none : (ls : List Text) → rposition p ls ≡ none → All (λ l. p l ≡ false) ls
  rposition-none [] e = tt
  rposition-none (l ∷ ls) e = elim (Option-cases (rposition p ls)) [
    | inl n ↦ (ground arith, rposition-none ls n)
    | inr (j, n) ↦ absurd (ground arith)
  ]

  rposition-later :
      (ls : List Text) (i : ℕ) → rposition p ls ≡ some i → All (λ l. p l ≡ false) (drop (suc i) ls)
  rposition-later [] i e = absurd (cc)
  rposition-later (l ∷ ls) i e = elim (Option-cases (rposition p ls)) [
    | inl n ↦
        let z : i ≡ 0 = ground arith in
        subst (λ k. All (λ l. p l ≡ false) (drop k ls)) (sym z) (rposition-none ls n)
    | inr (j, n) ↦
        let z : i ≡ suc j = ground arith in
        subst (λ k. All (λ l. p l ≡ false) (drop k ls)) (sym z) (rposition-later ls j n)
  ]

  rposition-absent : (ls : List Text) → All (λ l. p l ≡ false) ls → rposition p ls ≡ none
  rposition-absent [] h = refl
  rposition-absent (l ∷ ls) h = let ih = rposition-absent ls h.1 in ground arith

  rposition-append :
      (xs : List Text) (l : Text) (ys : List Text)
      → p l ≡ true
      → All (λ l. p l ≡ false) ys
      → rposition p (xs ++ (l ∷ ys)) ≡ some (length xs)
  rposition-append [] l ys e h = let n = rposition-absent ys h in ground arith
  rposition-append (x ∷ xs) l ys e h = let ih = rposition-append xs l ys e h in ground arith

  All-drop :
      (n : ℕ) (ls : List Text) → All (λ l. p l ≡ false) ls → All (λ l. p l ≡ false) (drop n ls)
  All-drop zero ls h = h
  All-drop (suc n) [] h = h
  All-drop (suc n) (l ∷ ls) h = All-drop n ls h.1

after_package-length :
    (lines : List Text) → after_package (position is_package_line lines) ≤ length lines
after_package-length lines = elim (Option-cases (position is_package_line lines)) [
  | inl n ↦ ground arith
  | inr (j, n) ↦ let h = position-length is_package_line lines j n in ground arith
]

-- A new import stands in the file or right behind it.
pub insertion_line-length : (lines : List Text) → import_insertion_line lines ≤ length lines
unfolding import_insertion_line
insertion_line-length lines = elim (Option-cases (rposition is_import_line lines)) [
  | inl n ↦ let h = after_package-length lines in ground arith
  | inr (j, n) ↦ let h = rposition-length is_import_line lines j n in ground arith
]

-- No import stands at the line of a new import or behind it.
pub insertion_line-later :
    (lines : List Text)
    → All (λ l. is_import_line l ≡ false) (drop (import_insertion_line lines) lines)
unfolding import_insertion_line
insertion_line-later lines = elim (Option-cases (rposition is_import_line lines)) [
  | inl n ↦
      All-drop is_import_line (after_import lines (rposition is_import_line lines)) lines
        (rposition-none is_import_line lines n)
  | inr (j, n) ↦
      let z : after_import lines (rposition is_import_line lines) ≡ suc j = ground arith in
      subst (λ k. All (λ l. is_import_line l ≡ false) (drop k lines)) (sym z)
        (rposition-later is_import_line lines j n)
]

statement-import : (fqn : Text) (semi : Bool) → is_import_line (statement fqn semi) ≡ true
unfolding is_import_line trim_start is_whitespace
statement-import fqn semi = refl

-- The file with the lines put in at the edit's place.
abbrev pub edited : Text → List Text → Bool → List Text
edited fqn lines semi =
    take (make_import_edit fqn lines semi).line lines
    ++ (new_lines fqn lines semi ++ drop (make_import_edit fqn lines semi).line lines)

abbrev pub ended : List Text → Text
ended [] = []
ended (l ∷ ls) = l ++ (codes "\n" ++ ended ls)

insertion_line-at :
    (lines : List Text) (i : ℕ)
    → rposition is_import_line lines ≡ some i
    → import_insertion_line lines ≡ suc i
unfolding import_insertion_line
insertion_line-at lines i e = ground arith

put :
    (pre post : List Text) (s : Text) (b : Bool)
    → is_import_line s ≡ true
    → All (λ l. is_import_line l ≡ false) post
    → import_insertion_line (pre ++ ((if b then [] ∷ s ∷ [] else s ∷ []) ++ post))
      ≡ length pre + length (if b then [] ∷ s ∷ [] else s ∷ [])
put pre post s false e h =
    let at =
      insertion_line-at (pre ++ (s ∷ post)) (length pre)
        (rposition-append is_import_line pre s post e h) in
    ground arith
put pre post s true e h =
    let at : import_insertion_line ((pre ++ ([] ∷ [])) ++ (s ∷ post))
        ≡ suc (length (pre ++ ([] ∷ []))) =
      insertion_line-at ((pre ++ ([] ∷ [])) ++ (s ∷ post)) (length (pre ++ ([] ∷ [])))
        (rposition-append is_import_line (pre ++ ([] ∷ [])) s post e h) in
    let same : (pre ++ ([] ∷ [])) ++ (s ∷ post) ≡ pre ++ ([] ∷ (s ∷ post)) =
      append_assoc pre ([] ∷ []) (s ∷ post) in
    let size = length-append pre ([] ∷ []) in
    subst (λ ls. import_insertion_line ls ≡ length pre + 2) same (ground arith)

new_text-ended :
    (fqn : Text) (lines : List Text) (semi : Bool)
    → (make_import_edit fqn lines semi).new_text ≡ ended (new_lines fqn lines semi)
unfolding make_import_edit
new_text-ended fqn lines semi =
    elim (Bool-cases (needs_blank lines (import_insertion_line lines))) [
      | inl e ↦ rw e
      | inr e ↦ rw e
    ]

-- The edit's text is the lines that it brings, each with its end, and in the file with these lines
-- the next import would stand right behind them.
make_import_edit-next :
    (fqn : Text) (lines : List Text) (semi : Bool)
    → ((make_import_edit fqn lines semi).new_text ≡ ended (new_lines fqn lines semi))
      × (import_insertion_line (edited fqn lines semi)
          ≡ (make_import_edit fqn lines semi).line + length (new_lines fqn lines semi))
unfolding make_import_edit
make_import_edit-next fqn lines semi =
    let n : ℕ = import_insertion_line lines in
    let b = needs_blank lines n in
    let here =
      put (take n lines) (drop n lines) (statement fqn semi) b (statement-import fqn semi)
        (insertion_line-later lines) in
    let size : length (take n lines) ≡ n =
      omega (arith, length-take n lines, insertion_line-length lines) in
    (new_text-ended fqn lines semi, here ∙ ap (λ k. k + length (new_lines fqn lines semi)) size)
