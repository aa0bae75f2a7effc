-- ===== src/Resolver/Gradle.antt =====
-- gradle_cache.rs: coordinates in the path of a cached JAR, and the keys of versions.
pub mod RoundTrip
use kmp_lsp.Base.{
  ℕ, zero, suc, ◌+◌, ◌-◌, ◌*◌, ◌^◌, ◌≡◌, refl, Bool, true, false, not, ◌&&◌, ◌||◌, Option, none,
  some, List, [], ◌∷◌, ◌++◌, map, String, arith, ltb, leb, ◌==◌, if◌then◌else◌, ◌>>=◌, is_empty,
}
use kmp_lsp.Text.{Text, codes, text_eq, drop_while, split, strip_prefix, is_ascii_digit}
use kmp_lsp.TextUtils.{after_first}

pub data VersionPart : Type 0 where
  numeric : ℕ → VersionPart
  text : Text → VersionPart

-- `str::parse::<u64>`: a sign `+`, then digits, without overflow.
abbrev parse_digits : ℕ → Text → Option ℕ
parse_digits acc [] = some acc
parse_digits acc (c ∷ s) =
    let acc' = acc * 10 + (c - b'0') in
    let rest = parse_digits acc' s in if is_ascii_digit c && ltb acc' (2 ^ 64) then rest else none

unfoldable pub parse_u64 : Text → Option ℕ
parse_u64 [] = none
parse_u64 (c ∷ []) = if c == b'+' then none else parse_digits 0 (c ∷ [])
parse_u64 (c ∷ d ∷ s) = parse_digits 0 (if c == b'+' then d ∷ s else c ∷ d ∷ s)

version_part : Text → VersionPart
version_part p = elim (parse_u64 p) [ some n ↦ numeric n | none ↦ text p ]

unfoldable pub version_key : Text → List VersionPart
unfolding version_part
version_key version = map version_part (split (λ c. c == b'.' || c == b'-') version)

pub record GradleMeta : Type 0 where
  pub group : Text
  pub artifact : Text
  pub version : Text

abbrev pub is_separator : ℕ → Bool
is_separator c = c == b'/' || c == b'\\'

-- Only the first three parts of `splitn(5, …)` are read, and a text has three parts of these at
-- least exactly if it has three parts at all.
abbrev pub meta_of : List Text → Option GradleMeta
meta_of [] = none
meta_of (g ∷ []) = none
meta_of (g ∷ a ∷ []) = none
meta_of (g ∷ a ∷ v ∷ parts) = some (record { group = g; artifact = a; version = v })

abbrev pub files_dir : Text
files_dir = codes "files-2.1"

unfoldable pub parse_jar_meta : Text → Option GradleMeta
parse_jar_meta jar = do
  rest ← after_first files_dir jar
  meta_of (split is_separator (drop_while is_separator rest))

abbrev pub meta_eq : GradleMeta → GradleMeta → Bool
meta_eq a b =
    text_eq a.group b.group && text_eq a.artifact b.artifact && text_eq a.version b.version
