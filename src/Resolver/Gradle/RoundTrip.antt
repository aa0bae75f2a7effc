-- ===== src/Resolver/Gradle/RoundTrip.antt =====
-- The paths of JARs in Gradle's cache, which gradle_cache.rs reads.
use kmp_lsp.Base.{
  ℕ, ◌≤◌, ◌≡◌, refl, ap, ◌∙◌, Bool, true, false, none, some, List, [], ◌∷◌, ◌++◌, arith, inl, inr,
  All, Option-cases, length, ◌>>=◌,
}
use kmp_lsp.Text.{Text, strip_prefix, split, drop_while}
use kmp_lsp.TextUtils.{after_first}
use kmp_lsp.Resolver.Gradle.{GradleMeta, parse_jar_meta, files_dir, is_separator, meta_of}

strip_prefix-length : (p s t : Text) → strip_prefix p s ≡ some t → length p ≤ length s
strip_prefix-length [] s t e = omega arith
strip_prefix-length (c ∷ p) [] t e = absurd (cc)
strip_prefix-length (c ∷ p) (d ∷ s) t e = ground (arith, strip_prefix-length p s t)

after_first-length : (p s t : Text) → after_first p s ≡ some t → length p ≤ length s
after_first-length p [] t e = strip_prefix-length p [] t e
after_first-length p (c ∷ s) t e = elim (Option-cases (strip_prefix p (c ∷ s))) [
  | inl n ↦ let ih = after_first-length p s t (ground arith) in omega (arith, ih)
  | inr (r, n) ↦ strip_prefix-length p (c ∷ s) r n
]

strip_prefix-more :
    (p s t r : Text) → strip_prefix p s ≡ some t → strip_prefix p (s ++ r) ≡ some (t ++ r)
strip_prefix-more [] s t r e = ground arith
strip_prefix-more (c ∷ p) [] t r e = absurd (cc)
strip_prefix-more (c ∷ p) (d ∷ s) t r e = ground (arith, strip_prefix-more p s t r)

strip_prefix-fails :
    (p s r : Text) → length p ≤ length s → strip_prefix p s ≡ none → strip_prefix p (s ++ r) ≡ none
strip_prefix-fails [] s r h e = absurd (cc)
strip_prefix-fails (c ∷ p) [] r h e = absurd (omega (arith, h))
strip_prefix-fails (c ∷ p) (d ∷ s) r h e = ground (arith, strip_prefix-fails p s r)

after_first-more :
    (p s t r : Text) → after_first p s ≡ some t → after_first p (s ++ r) ≡ some (t ++ r)
after_first-more p [] t [] e = let m = strip_prefix-more p [] t [] e in ground arith
after_first-more p [] t (d ∷ r) e = let m = strip_prefix-more p [] t (d ∷ r) e in ground arith
after_first-more p (c ∷ s) t r e = elim (Option-cases (strip_prefix p (c ∷ s))) [
  | inl n ↦
      let later : after_first p s ≡ some t = ground arith in
      let size : length p ≤ length (c ∷ s) = omega (arith, after_first-length p s t later) in
      let fails = strip_prefix-fails p (c ∷ s) r size n in
      let ih = after_first-more p s t r later in ground arith
  | inr (q, n) ↦ let m = strip_prefix-more p (c ∷ s) q r n in ground arith
]

split-part :
    (p : ℕ → Bool) (a : Text) (d : ℕ) (b : Text)
    → p d ≡ true
    → All (λ c. p c ≡ false) a
    → split p (a ++ (d ∷ b)) ≡ a ∷ split p b
unfolding split
split-part p [] d b e h = ground arith
split-part p (c ∷ a) d b e h = ground (arith, split-part p a d b)

abbrev pub IsPart : Text → Type 0
IsPart s = All (λ c. is_separator c ≡ false) s

-- A path in the cache, by the part before the coordinates, the coordinates and what follows them.
abbrev pub cache_path : Text → GradleMeta → Text → Text
cache_path home m file =
    home ++ (b'/' ∷ (m.group ++ (b'/' ∷ (m.artifact ++ (b'/' ∷ (m.version ++ (b'/' ∷ file)))))))

drop_separator :
    (c : ℕ) (s : Text) → is_separator c ≡ false → drop_while is_separator (b'/' ∷ c ∷ s) ≡ c ∷ s
drop_separator c s e = ground arith

coordinates :
    (home r g a v : Text) (ps : List Text)
    → after_first files_dir (home ++ (b'/' ∷ r)) ≡ some (b'/' ∷ r)
    → drop_while is_separator (b'/' ∷ r) ≡ r
    → split is_separator r ≡ g ∷ (a ∷ (v ∷ ps))
    → parse_jar_meta (home ++ (b'/' ∷ r)) ≡ some (record { group = g; artifact = a; version = v })
unfolding parse_jar_meta
coordinates home r g a v ps e d q =
    ap (λ o. o >>= λ rest. meta_of (split is_separator (drop_while is_separator rest))) e
    ∙ (ap (λ t. meta_of (split is_separator t)) d ∙ ap meta_of q)

-- A path in Gradle's cache gives back its coordinates: the part up to the first `files-2.1` ends
-- with it, no coordinate has a separator in it, and the group is not empty.
pub parse_jar_meta-cache_path :
    (home : Text) (c : ℕ) (g a v file : Text)
    → after_first files_dir home ≡ some []
    → IsPart (c ∷ g)
    → IsPart a
    → IsPart v
    → parse_jar_meta (cache_path home (record { group = c ∷ g; artifact = a; version = v }) file)
      ≡ some (record { group = c ∷ g; artifact = a; version = v })
parse_jar_meta-cache_path home c g a v file e hg ha hv =
    let vs : Text = v ++ (b'/' ∷ file) in
    let az : Text = a ++ (b'/' ∷ vs) in
    let gs : Text = g ++ (b'/' ∷ az) in
    let first : after_first files_dir (home ++ (b'/' ∷ c ∷ gs)) ≡ some (b'/' ∷ c ∷ gs) =
      after_first-more files_dir home [] (b'/' ∷ c ∷ gs) e in
    let parts : split is_separator (c ∷ gs) ≡ (c ∷ g) ∷ (a ∷ (v ∷ split is_separator file)) = rw (
      split-part is_separator (c ∷ g) b'/' az refl hg,
      split-part is_separator a b'/' vs refl ha,
      split-part is_separator v b'/' file refl hv,
    ) in
    coordinates home (c ∷ gs) (c ∷ g) a v (split is_separator file) first (drop_separator c gs hg.0)
      parts
