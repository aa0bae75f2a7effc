-- ===== src/Workspace/Documents/Handles.antt =====
-- Tasks as handles of their documents: what an abort and a change of a map leave of them.
use kmp_lsp.Base.{
  ℕ, zero, suc, ◌≡◌, refl, sym, ap, ◌∙◌, Bool, true, false, not, Option, none, some, List, [], ◌∷◌,
  ◌==◌, arith, inl, inr, Bool-cases, All, keep,
}
use kmp_lsp.Text.{Text, text_eq}
use kmp_lsp.Text.Laws.{text_eq_iff, text_eq_refl}
use kmp_lsp.Workspace.Documents.{put, Task, abort, pick}

-- A task runs for the live text of its document, whose handle it is.
abbrev pub IsLive : (Text → Option Text) → (Text → Option ℕ) → Task → Type 0
IsLive live pending t = (live t.uri ≡ some t.text) × (pending t.uri ≡ some t.id)

pub All-map {ℓ κ μ} :
    {A : Type ℓ} (P : A → Type κ) (Q : A → Type μ) (xs : List A)
    → ((x : A) → P x → Q x)
    → All P xs
    → All Q xs
All-map P Q [] f h = tt
All-map P Q (x ∷ xs) f (p, h) = (f x p, All-map P Q xs f h)

All-keep {ℓ κ μ} :
    {A : Type ℓ} (p : A → Bool) (P : A → Type κ) (Q : A → Type μ) (xs : List A)
    → ((x : A) → p x ≡ true → P x → Q x)
    → All P xs
    → All Q (keep p xs)
All-keep p P Q [] f h = tt
All-keep p P Q (x ∷ xs) f (h, hs) = elim (Bool-cases (p x)) [
  | inl e ↦ rw e (f x e h, All-keep p P Q xs f hs)
  | inr e ↦ rw e (All-keep p P Q xs f hs)
]

-- After the abort, no task of the document is left.
abbrev pub Elsewhere : (Text → Option Text) → (Text → Option ℕ) → Text → Task → Type 0
Elsewhere live pending uri t = IsLive live pending t × (text_eq uri t.uri ≡ false)

same_uri :
    (live : Text → Option Text) (pending : Text → Option ℕ) (uri : Text) (t : Task)
    → IsLive live pending t
    → text_eq uri t.uri ≡ true
    → pending uri ≡ some t.id
same_uri live pending uri t h e = ap pending ((text_eq_iff uri t.uri).0 e) ∙ h.1

pub abort-Elsewhere :
    (live : Text → Option Text) (pending : Text → Option ℕ) (uri : Text) (o : Option ℕ)
    (tasks : List Task)
    → pending uri ≡ o
    → All (IsLive live pending) tasks
    → All (Elsewhere live pending uri) (abort o tasks)
abort-Elsewhere live pending uri none tasks e h =
    All-map (IsLive live pending) (Elsewhere live pending uri) tasks
      (λ t l. (
        l,
        elim (Bool-cases (text_eq uri t.uri)) [
          | inr n ↦ n
          | inl y ↦ let c : none ≡ some t.id = sym e ∙ same_uri live pending uri t l y in cc
        ],
      ))
      h
abort-Elsewhere live pending uri (some id) tasks e h =
    All-keep (λ t. not (t.id == id)) (IsLive live pending) (Elsewhere live pending uri) tasks
      (λ t k l. (
        l,
        elim (Bool-cases (text_eq uri t.uri)) [
          | inr n ↦ n
          | inl y ↦
              let c : some id ≡ some t.id = sym e ∙ same_uri live pending uri t l y in
              ground (arith, k, c)
        ],
      ))
      h

-- Tasks of other documents do not see a change of a map at this one.
pub others-IsLive :
    (live : Text → Option Text) (pending : Text → Option ℕ) (uri : Text) (v : Option Text)
    (w : Option ℕ) (tasks : List Task)
    → All (Elsewhere live pending uri) tasks
    → All (IsLive (put uri v live) (put uri w pending)) tasks
others-IsLive live pending uri v w tasks h =
    All-map (Elsewhere live pending uri) (IsLive (put uri v live) (put uri w pending)) tasks
      (λ t l. (rw (l.1) (l.0.0), rw (l.1) (l.0.1))) h

pub put_self {ℓ} : {A : Type ℓ} (k : Text) (v : A) (m : Text → A) → put k v m k ≡ v
put_self k v m = rw (text_eq_refl k) refl

-- What holds of all elements holds of the one that was taken and of the rest.
abbrev pub AllPicked {ℓ κ} : {A : Type ℓ} (P : A → Type κ) → Option (A × List A) → Type κ
AllPicked P none = Unit
AllPicked P (some (y, ys)) = P y × All P ys

pub pick-AllPicked {ℓ κ} :
    {A : Type ℓ} (P : A → Type κ) (n : ℕ) (xs : List A) → All P xs → AllPicked P (pick n xs)
pick-AllPicked P n [] h = _
pick-AllPicked P zero (x ∷ xs) h = h
pick-AllPicked P (suc n) (x ∷ xs) (p, h) = under (pick n xs) (pick-AllPicked P n xs h)
  where
    under :
        (o : Option (_ × List _))
        → AllPicked P o
        → AllPicked P (elim o [ none ↦ none | some (y, ys) ↦ some (y, x ∷ ys) ])
    under none k = _
    under (some (y, ys)) (k, ks) = (k, (p, ks))
