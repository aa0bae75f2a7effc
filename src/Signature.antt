-- ===== src/Signature.antt =====
-- Signatures and the calls that they admit: the text functions of indexer/infer/sig.rs and
-- indexer/infer/args.rs, with CallShape of indexer/infer/deps.rs and the receivers of function
-- types in indexer/infer/lambda.rs.
pub mod Split
pub mod Chosen
pub mod Reach
mod Tests
use kmp_lsp.Base.{
  ℕ, zero, suc, ◌+◌, ◌-◌, ◌%◌, ◌^◌, Bool, true, false, not, ◌&&◌, ◌||◌, Option, none, some, List,
  [], ◌∷◌, ◌++◌, map, leb, ◌==◌, if◌then◌else◌, is_empty, length, take, drop, keep, get_elem?,
  get_last?, or_else, is_some, ◌>>=◌, ℤ, pos, negsuc, up, down, is_zero,
}
use kmp_lsp.Text.{
  Text, Unicode, codes, trim, trim_start, trim_end, drop_while, drop_end_while, starts_with,
  strip_prefix, contains_text, contains_char, ends_with_char, split_once, push_part, join,
  is_whitespace,
}
use kmp_lsp.TypeText.Names.{is_id_char, dotted_ident_prefix}

abbrev is_positive : ℤ → Bool
is_positive (pos zero) = false
is_positive (pos (suc n)) = true
is_positive (negsuc n) = false

-- The depth behind a character, by the one before it: the `>` of an arrow closes nothing.
abbrev pub depth_behind : ℤ → ℕ → ℕ → ℤ
depth_behind d prev c =
    if contains_char c (codes "(<[{")
    then up d
    else if contains_char c (codes ")]}")
    then down d
    else if c == b'>' && not (prev == b'-') && is_positive d
    then down d
    else d

abbrev pub parts_params : ℤ → ℕ → Bool
parts_params d c = c == b',' && is_zero d

abbrev pub split_params_from : ℤ → ℕ → Text → List Text
split_params_from d prev [] = [] ∷ []
split_params_from d prev (c ∷ s) =
    let rest = split_params_from (depth_behind d prev c) c s in
    if parts_params d c then [] ∷ rest else push_part c rest

unfoldable pub split_params_at_depth_zero : Text → List Text
split_params_at_depth_zero text = split_params_from (pos 0) 0 text

unfoldable pub written_params : Text → List Text
written_params params_text =
    keep (λ p. not (is_empty (trim p))) (split_params_at_depth_zero params_text)

-- What stands behind the colon of a parameter, annotations before its name skipped.
abbrev type_of_param : Unicode → Text → Option Text
type_of_param u param =
    split_once b':' (drop_while (λ c. not (is_id_char u c)) (trim param)) >>= λ s. some (trim s.1)

unfoldable pub nth_fun_param_type_str : Unicode → Text → ℕ → Option Text
nth_fun_param_type_str u params_text n =
    or_else (get_elem? (written_params params_text) n) (get_last? (written_params params_text))
    >>= type_of_param u

unfoldable pub last_fun_param_type_str : Unicode → Text → Option Text
last_fun_param_type_str u params_text =
    nth_fun_param_type_str u params_text (length (written_params params_text) - 1)

-- `find` with a text: what stands before its first occurrence, and behind it.
abbrev pub split_at_text : Text → Text → Option (Text × Text)
split_at_text pat [] = strip_prefix pat [] >>= λ rest. some ([], rest)
split_at_text pat (c ∷ s) =
    let later = split_at_text pat s in
    or_else (strip_prefix pat (c ∷ s) >>= λ rest. some ([], rest))
      (later >>= λ p. some (c ∷ p.0, p.1))

abbrev starts_with_space : Text → Bool
starts_with_space [] = false
starts_with_space (c ∷ s) = is_whitespace c

unfoldable pub strip_suspend : Text → Text
strip_suspend type_name = elim (strip_prefix (codes "suspend") type_name) [
  | none ↦ type_name
  | some rest ↦ if starts_with_space rest then trim_start rest else type_name
]

abbrev unless_blank : Text → Option Text
unless_blank t = if is_empty t then none else some t

unfoldable pub lambda_type_receiver : Unicode → Text → Option Text
lambda_type_receiver u type_name =
    split_at_text (codes ".(")
      (trim_start (drop_while (λ c. c == b'(') (strip_suspend (trim type_name))))
    >>= λ s. unless_blank (drop_end_while (λ c. c == b'.') (dotted_ident_prefix u (trim s.0)))

abbrev without_suspend : Text → Option Text → Text
without_suspend t none = t
without_suspend t (some rest) = trim_start rest

unfoldable pub is_lambda_shaped : Unicode → Text → Bool
is_lambda_shaped u type_str =
    let t = without_suspend (trim type_str) (strip_prefix (codes "suspend") (trim type_str)) in
    (starts_with (codes "(") t || is_some (lambda_type_receiver u t))
    && contains_text (codes "->") t

pub record CallShape : Type 0 where
  pub arg_count : ℕ
  pub trailing_lambda : Bool

-- A `usize`, which wraps.
unfoldable pub accepts : CallShape → ℕ → ℕ → Bool
accepts shape required total =
    let call_arg_count = (shape.arg_count + (if shape.trailing_lambda then 1 else 0)) % 2 ^ 64 in
    leb required call_arg_count && leb call_arg_count total

-- The text of a signature, with the counts of its required and of all its parameters.
abbrev pub Candidate : Type 0
Candidate = Text × ℕ × ℕ

unfoldable pub trusted_param_counts : ℕ × ℕ → Bool → ℕ × ℕ
trusted_param_counts (required, total) is_compiled_jar =
    if is_compiled_jar then (0, total) else (required, total)

abbrev takes_lambda : Unicode → Text → Bool
takes_lambda u params_text = elim (last_fun_param_type_str u params_text) [
  | none ↦ false
  | some t ↦ is_lambda_shaped u t
]

unfoldable pub candidate_applies_to_call : Unicode → Candidate → CallShape → Bool
candidate_applies_to_call u (params_text, required, total) shape =
    accepts shape required total && (not shape.trailing_lambda || takes_lambda u params_text)

abbrev same : Bool → Bool → Bool
same a b = if a then b else not b

-- Whether the arity fits, and whether a lambda is written where one is taken.
unfoldable pub score : Unicode → CallShape → Candidate → Bool × Bool
score u shape (text, required, total) =
    (accepts shape required total, same (takes_lambda u text) shape.trailing_lambda)

abbrev pub position : Bool × Bool → List (Bool × Bool) → Option ℕ
position w [] = none
position w (x ∷ xs) =
    let later = position w xs in
    if same x.0 w.0 && same x.1 w.1 then some 0 else later >>= λ i. some (suc i)

abbrev pub first_wanted : List (Bool × Bool) → List (Bool × Bool) → Option ℕ
first_wanted [] scored = some 0
first_wanted (w ∷ ws) scored = or_else (position w scored) (first_wanted ws scored)

abbrev pub wanted : List (Bool × Bool)
wanted = (true, true) ∷ (false, true) ∷ (true, false) ∷ []

unfoldable pub best_candidate_index : Unicode → List Candidate → CallShape → Option ℕ
best_candidate_index u candidates shape =
    if is_empty candidates then none else first_wanted wanted (map (score u shape) candidates)

unfoldable pub pick_candidate_matching_shape : Unicode → List Candidate → CallShape → Option Text
pick_candidate_matching_shape u candidates shape = do
  index ← best_candidate_index u candidates shape
  candidate ← get_elem? candidates index
  some candidate.0

-- `trim_start_matches` with a text takes it off as often as it stands there.
abbrev strip_all : ℕ → Text → Text → Text
strip_all zero pat s = s
strip_all (suc n) pat s = elim (strip_prefix pat s) [ none ↦ s | some rest ↦ strip_all n pat rest ]

abbrev trim_start_matches : Text → Text → Text
trim_start_matches pat s = strip_all (length s) pat s

abbrev ends_with_id : Unicode → Text → Bool
ends_with_id u before = elim (get_last? before) [ none ↦ false | some c ↦ is_id_char u c ]

-- The type that one part gives for the name, if it is that parameter.
abbrev type_in_part : Unicode → Text → Text → Option Text
type_in_part u param_name part =
    split_at_text (param_name ++ b':' ∷ [])
      (trim_start_matches (codes "var ") (trim_start_matches (codes "val ") (trim part)))
    >>= λ s. if ends_with_id u s.0 then none else unless_blank (trim s.1)

abbrev first_type : Unicode → Text → List Text → Option Text
first_type u param_name [] = none
first_type u param_name (part ∷ parts) =
    or_else (type_in_part u param_name part) (first_type u param_name parts)

unfoldable pub find_named_param_type_in_sig : Unicode → Text → Text → Option Text
find_named_param_type_in_sig u sig_ param_name =
    first_type u param_name (split_params_at_depth_zero sig_)

-- The depth is never below 0 here.
abbrev first_arg_from : ℕ → ℕ → Text → Text
first_arg_from depth prev [] = []
first_arg_from depth prev (c ∷ s) =
    let deeper = first_arg_from (depth + 1) c s in
    let higher = first_arg_from (depth - 1) c s in
    let level = first_arg_from depth c s in
    if contains_char c (codes "(<[")
    then c ∷ deeper
    else if contains_char c (codes ")]")
    then if depth == 0 then [] else c ∷ higher
    else if c == b'>' && not (prev == b'-') && leb 1 depth
    then c ∷ higher
    else if c == b',' && depth == 0
    then []
    else c ∷ level

unfoldable pub extract_first_arg : Text → Option Text
extract_first_arg call_expr =
    split_once b'(' call_expr >>= λ s. unless_blank (trim (first_arg_from 0 0 s.1))

abbrev paren_depth : ℤ → Text → ℤ
paren_depth d [] = d
paren_depth d (c ∷ s) = paren_depth (if c == b'(' then up d else if c == b')' then down d else d) s

unfoldable pub signature_lines : ℤ → List Text → List Text
signature_lines d [] = []
signature_lines d (raw_line ∷ ls) =
    let raw = trim raw_line in
    let d' = paren_depth d raw in
    let trimmed = trim_end (drop_end_while (λ c. c == b'{') raw) in
    let rest = signature_lines d' ls in
    if ends_with_char b'{' raw
    then if is_empty trimmed then [] else trimmed ∷ []
    else raw ∷ (if not (is_positive d') && not (ends_with_char b',' raw) then [] else rest)

unfoldable pub collect_signature : List Text → ℕ → Text
collect_signature lines start_line =
    join (10 ∷ []) (signature_lines (pos 0) (take 15 (drop start_line lines)))
