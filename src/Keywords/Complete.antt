-- ===== src/Keywords/Complete.antt =====
-- The binary search of the keyword tables of text_utils.rs.
use Prim.Native.Nat.{Ordering}
use mathlib.Core.Path.{subst}
use kmp_lsp.Base.{
  ℕ, zero, suc, ◌+◌, ◌-◌, ◌/◌, ◌≡◌, refl, sym, Bool, true, false, ◌&&◌, ◌||◌, some, List, [], ◌∷◌,
  arith, inl, inr, Bool-cases, and-true, Option-cases, get_elem?, length, all,
}
use kmp_lsp.Text.{Text, codes, text_eq, contains, ends_with}
use kmp_lsp.Text.Laws.{text_eq_iff}
use kmp_lsp.Keywords.{
  compare_text, search_range, binary_search, kotlin_table, java_table, is_keyword_for_file,
}

compare_text-eq : (s t : Text) → compare_text s t ≡ Ordering.eq → text_eq s t ≡ true
compare_text-eq [] [] h = refl
compare_text-eq [] (d ∷ t) h = cc
compare_text-eq (c ∷ s) [] h = cc
compare_text-eq (c ∷ s) (d ∷ t) h = ground (arith, compare_text-eq s t)

text_eq_sym : (s t : Text) → text_eq s t ≡ true → text_eq t s ≡ true
text_eq_sym s t h = (text_eq_iff t s).1 (sym ((text_eq_iff s t).0 h))

get_elem?-contains :
    (table : List Text) (i : ℕ) (x y : Text)
    → get_elem? table i ≡ some y
    → text_eq y x ≡ true
    → contains table x ≡ true
get_elem?-contains [] i x y e h = absurd (cc)
get_elem?-contains (z ∷ zs) zero x y e h = ground arith
get_elem?-contains (z ∷ zs) (suc i) x y e h = ground (arith, get_elem?-contains zs i x y e h)

search_range-contains :
    (fuel : ℕ) (table : List Text) (x : Text) (base size : ℕ)
    → search_range fuel table x base size ≡ true
    → contains table x ≡ true
unfolding search_range
search_range-contains zero table x base size h = absurd (cc)
search_range-contains (suc fuel) table x base size h =
    let half : ℕ = size / 2 in
    elim (Option-cases (get_elem? table (base + half))) [
      | inl e ↦ ground arith
      | inr (y, e) ↦ ground (
        arith,
        compare_text-eq y x,
        get_elem?-contains table (base + half) x y,
        search_range-contains fuel table x base half,
        search_range-contains fuel table x (base + half + 1) (size - half - 1),
      )
    ]

binary_search_sound :
    (table : List Text) (x : Text) → binary_search table x ≡ true → contains table x ≡ true
unfolding binary_search
binary_search_sound table x h =
    search_range-contains (suc (length table)) table x 0 (length table) h

all-contains :
    (p : Text → Bool) (ts : List Text) (x : Text)
    → all p ts ≡ true
    → contains ts x ≡ true
    → p x ≡ true
all-contains p [] x h m = absurd (cc)
all-contains p (t ∷ ts) x h m = elim (Bool-cases (text_eq t x)) [
  | inl e ↦ subst (λ z. p z ≡ true) ((text_eq_iff t x).0 e) (and-true (p t) (all p ts) h).0
  | inr e ↦ all-contains p ts x (and-true (p t) (all p ts) h).1 (ground arith)
]

kotlin_found : all (binary_search kotlin_table) kotlin_table ≡ true
unfolding binary_search
kotlin_found = refl

java_found : all (binary_search java_table) java_table ≡ true
unfolding binary_search
java_found = refl

Bool-iff : (a b : Bool) → (a ≡ true → b ≡ true) → (b ≡ true → a ≡ true) → a ≡ b
Bool-iff true true f g = refl
Bool-iff true false f g = sym (f refl)
Bool-iff false true f g = g refl
Bool-iff false false f g = refl

binary_search-contains :
    (table : List Text) (x : Text)
    → all (binary_search table) table ≡ true
    → binary_search table x ≡ contains table x
binary_search-contains table x found =
    Bool-iff (binary_search table x) (contains table x) (binary_search_sound table x)
      (all-contains (binary_search table) table x found)

either_table :
    (kotlin java : List Text) (name : Text) (is_java : Bool)
    → all (binary_search kotlin) kotlin ≡ true
    → all (binary_search java) java ≡ true
    → (binary_search kotlin name || (is_java && binary_search java name))
      ≡ (contains kotlin name || (is_java && contains java name))
either_table kotlin java name is_java k j =
    rw (binary_search-contains kotlin name k, binary_search-contains java name j)

-- A name is a keyword for a file exactly if it stands in the Kotlin table, or, where the path ends
-- in ".java", in the Java one: the binary searches miss no entry and find no other name.
pub is_keyword_for_file-contains :
    (name file_path : Text)
    → is_keyword_for_file name file_path ≡ (
        contains kotlin_table name
        || (ends_with (codes ".java") file_path && contains java_table name))
unfolding is_keyword_for_file
is_keyword_for_file-contains name file_path =
    either_table kotlin_table java_table name (ends_with (codes ".java") file_path) kotlin_found
      java_found
