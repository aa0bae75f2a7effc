-- ===== src/Index/FileTable.antt =====
-- The table of interned files of types.rs: `FileTable::intern` and `FileTable::url`. A URL is its text.
-- What `intern` does under its lock is one step, which looks the URL up again; the look-up before the
-- lock only saves that step, so racing calls are a sequence of these steps.
use kmp_lsp.Base.{
  ℕ, zero, suc, ◌^◌, ◌≡◌, refl, sym, ap, ◌∙◌, true, false, Option, none, some, List, [], ◌∷◌, ◌++◌,
  arith, inl, inr, Bool-cases, ltb, length, get_elem?, if◌then◌else◌, ◌⊎◌,
}
use kmp_lsp.Text.{Text, text_eq}
use kmp_lsp.Text.Laws.{text_eq_iff}

pub record FileTable : Type 0 where
  pub by_id : List Text
  pub by_uri : Text → Option ℕ

unfoldable pub new : FileTable
new = record { by_id = []; by_uri = λ uri. none }

abbrev pub insert_uri : Text → ℕ → (Text → Option ℕ) → Text → Option ℕ
insert_uri uri id m x = if text_eq uri x then some id else m x

-- The push and the insertion; `none` where the assertion on the number of files fails.
unfoldable pub append : Text → FileTable → Option (ℕ × FileTable)
append uri t =
    if ltb (length t.by_id) (2 ^ 32)
    then some (
      length t.by_id,
      record { by_id = t.by_id ++ uri ∷ []; by_uri = insert_uri uri (length t.by_id) t.by_uri },
    )
    else none

abbrev pub or_append : Text → FileTable → Option ℕ → Option (ℕ × FileTable)
or_append uri t (some existing) = some (existing, t)
or_append uri t none = append uri t

unfoldable pub intern : Text → FileTable → Option (ℕ × FileTable)
intern uri t = or_append uri t (t.by_uri uri)

unfoldable pub url : ℕ → FileTable → Option Text
url id t = get_elem? t.by_id id

-- The two maps are each other's inverse.
pub record IsInverse (t : FileTable) : Type 0 where
  pub back : (uri : Text) (id : ℕ) → t.by_uri uri ≡ some id → get_elem? t.by_id id ≡ some uri
  pub forth : (uri : Text) (id : ℕ) → get_elem? t.by_id id ≡ some uri → t.by_uri uri ≡ some id

get_elem-append :
    (xs ys : List Text) (i : ℕ) (v : Text)
    → get_elem? xs i ≡ some v
    → get_elem? (xs ++ ys) i ≡ some v
get_elem-append [] ys i v e = absurd (cc)
get_elem-append (x ∷ xs) ys zero v e = e
get_elem-append (x ∷ xs) ys (suc i) v e = get_elem-append xs ys i v e

get_elem-last : (xs : List Text) (x : Text) → get_elem? (xs ++ x ∷ []) (length xs) ≡ some x
get_elem-last [] x = refl
get_elem-last (y ∷ xs) x = get_elem-last xs x

get_elem-append_inv :
    (xs : List Text) (x : Text) (i : ℕ) (v : Text)
    → get_elem? (xs ++ x ∷ []) i ≡ some v
    → (get_elem? xs i ≡ some v) ⊎ ((i ≡ length xs) × (x ≡ v))
get_elem-append_inv [] x zero v e = inr (refl, cc)
get_elem-append_inv [] x (suc i) v e = absurd (cc)
get_elem-append_inv (y ∷ xs) x zero v e = inl e
get_elem-append_inv (y ∷ xs) x (suc i) v e = elim (get_elem-append_inv xs x i v e) [
  | inl h ↦ inl h
  | inr (h, k) ↦ inr (ap suc h, k)
]

unfoldable pub appended : Text → FileTable → FileTable
appended uri t = record {
  by_id = t.by_id ++ uri ∷ [];
  by_uri = insert_uri uri (length t.by_id) t.by_uri;
}

pub appended-IsInverse :
    (uri : Text) (t : FileTable) → t.by_uri uri ≡ none → IsInverse t → IsInverse (appended uri t)
unfolding appended
appended-IsInverse uri t new_uri v = record {
  back = λ x id e. elim (Bool-cases (text_eq uri x)) [
    | inl q ↦
        let same : uri ≡ x = (text_eq_iff uri x).0 q in
        let at : length t.by_id ≡ id = ground arith in
        ap (get_elem? (t.by_id ++ uri ∷ [])) (sym at) ∙ get_elem-last t.by_id uri ∙ ap some same
    | inr q ↦ get_elem-append t.by_id (uri ∷ []) id x (v.back x id (ground arith))
  ];
  forth = λ x id e. elim (get_elem-append_inv t.by_id uri id x e) [
    | inl h ↦
        let known = v.forth x id h in
        let other : text_eq uri x ≡ false = elim (Bool-cases (text_eq uri x)) [
          | inl q ↦ absurd (ground (arith, sym (ap t.by_uri ((text_eq_iff uri x).0 q))))
          | inr q ↦ q
        ] in
        ground arith
    | inr (h, k) ↦ let q : text_eq uri x ≡ true = (text_eq_iff uri x).1 k in ground arith
  ];
}

pub new-IsInverse : IsInverse new
unfolding new
new-IsInverse = record { back = λ uri id e. absurd (cc); forth = λ uri id e. absurd (cc) }
