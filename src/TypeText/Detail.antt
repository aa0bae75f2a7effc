-- ===== src/TypeText/Detail.antt =====
-- detail_text.rs: what a declaration's detail says of its type.
use kmp_lsp.Base.{
  ℕ, zero, suc, ◌+◌, Bool, not, ◌&&◌, ◌||◌, Option, none, some, List, [], ◌∷◌, map, String, leb,
  ◌==◌, if◌then◌else◌, ◌>>=◌, or_else, unwrap_or, is_empty, length, take, drop, head?, ℤ, pos, up,
  down, is_zero,
}
use kmp_lsp.Text.{
  Text, Unicode, codes, text_eq, strip_prefix, starts_with, contains, contains_char, find_char,
  rfind_char, slice, trim_start, trim, drop_while, drop_end_while, split,
}
use kmp_lsp.TypeText.Names.{ident_prefix, dotted_ident_prefix, last_segment, starts_with_uppercase}
use kmp_lsp.TypeText.Args.{first_type_arg}

unfoldable pub kotlin_primitive_type_name : Text → Option Text
kotlin_primitive_type_name java_name =
    if text_eq java_name (codes "int")
    then some (codes "Int")
    else if text_eq java_name (codes "boolean")
    then some (codes "Boolean")
    else if text_eq java_name (codes "long")
    then some (codes "Long")
    else if text_eq java_name (codes "float")
    then some (codes "Float")
    else if text_eq java_name (codes "double")
    then some (codes "Double")
    else if text_eq java_name (codes "byte")
    then some (codes "Byte")
    else if text_eq java_name (codes "short")
    then some (codes "Short")
    else if text_eq java_name (codes "char")
    then some (codes "Char")
    else if text_eq java_name (codes "void")
    then some (codes "Unit")
    else none

-- The characters at which the scan stops outside the brackets.
abbrev pub stops_type : ℕ → Bool
stops_type c = c == b'?' || c == b' ' || c == b'=' || c == b',' || c == b')' || c == b'\n'

-- The depth of this scan does not fall below 0.
abbrev pub type_from : ℕ → Text → Text
type_from depth [] = []
type_from zero (c ∷ s) =
    let deeper = type_from 1 s in
    let further = type_from 0 s in
    if c == b'<'
    then c ∷ deeper
    else if c == b'>'
    then []
    else if stops_type c
    then []
    else c ∷ further
type_from (suc depth) (c ∷ s) =
    let deeper = type_from (suc (suc depth)) s in
    let shallower = type_from depth s in
    let further = type_from (suc depth) s in
    if c == b'<'
    then c ∷ deeper
    else if c == b'>'
    then c ∷ (if depth == 0 then [] else shallower)
    else c ∷ further

unfoldable pub extract_type_with_generics : Text → Text
extract_type_with_generics s = type_from 0 s

-- What stands behind the first `:` outside the angle brackets.
abbrev after_colon : ℤ → Text → Option Text
after_colon d [] = none
after_colon d (c ∷ s) =
    let deeper = after_colon (up d) s in
    let shallower = after_colon (down d) s in
    let further = after_colon d s in
    if c == b'<'
    then deeper
    else if c == b'>'
    then shallower
    else if c == b':' && is_zero d
    then some s
    else further

strip_visibility : Text → Text
strip_visibility detail =
    unwrap_or
      (or_else (strip_prefix (codes "public ") detail) (
        or_else (strip_prefix (codes "internal ") detail) (
          or_else (strip_prefix (codes "protected ") detail)
            (strip_prefix (codes "private ") detail))))
      detail

property_type_name : Unicode → Text → Option Text
unfolding kotlin_primitive_type_name starts_with_uppercase
property_type_name u type_name = elim (kotlin_primitive_type_name type_name) [
  | some primitive ↦ some primitive
  | none ↦
      if not (is_empty type_name) && starts_with_uppercase u type_name then some type_name else none
]

unfoldable pub extract_property_type_from_detail : Unicode → Text → Option Text
unfolding strip_visibility trim_start extract_type_with_generics property_type_name
extract_property_type_from_detail u detail =
    let after_vis = strip_visibility detail in
    do
      after_kw ←
          or_else (strip_prefix (codes "val ") after_vis) (strip_prefix (codes "var ") after_vis)
      after ← after_colon (pos 0) after_kw
      property_type_name u (extract_type_with_generics (trim_start after))

pub record DeclaredReturnText : Type 0 where
  pub type_name : Text
  pub nullable : Bool

pub data ReturnNullability : Type 0 where
  non_null nullable unknown : ReturnNullability

-- One round of the loop: what the text behind a `)` declares, if anything.
unfoldable pub return_after : Unicode → Text → Option DeclaredReturnText
unfolding trim_start extract_type_with_generics dotted_ident_prefix last_segment
    starts_with_uppercase
return_after u rest = elim (strip_prefix (codes ":") (trim_start rest)) [
  | none ↦ none
  | some behind ↦
      let type_part = trim_start behind in
      let type_name = extract_type_with_generics type_part in
      let type_path = dotted_ident_prefix u type_name in
      if not (is_empty type_path) && starts_with_uppercase u (last_segment type_path)
      then some (record {
        type_name = type_name;
        nullable = starts_with (codes "?") (drop (length type_name) type_part);
      })
      else none
]

-- The loop: the last `)` before `search_from`, with fuel.
unfoldable pub return_from : Unicode → ℕ → Text → ℕ → Option DeclaredReturnText
unfolding rfind_char return_after
return_from u zero detail search_from = none
return_from u (suc fuel) detail search_from = do
  close_paren ← rfind_char b')' (take search_from detail)
  or_else (return_after u (drop (close_paren + 1) detail)) (return_from u fuel detail close_paren)

-- U+2026 marks a detail that was cut.
unfoldable pub declared_return_in_detail : Unicode → Text → Option DeclaredReturnText
unfolding return_from
declared_return_in_detail u detail =
    if contains_char 0x2026 detail
    then none
    else return_from u (suc (length detail)) detail (length detail)

unfoldable pub extract_return_type_from_detail : Unicode → Text → Option Text
unfolding declared_return_in_detail
extract_return_type_from_detail u detail = elim (declared_return_in_detail u detail) [
  | none ↦ none
  | some declared ↦ some declared.type_name
]

unfoldable pub extract_return_nullability_from_detail : Unicode → Text → ReturnNullability
unfolding declared_return_in_detail
extract_return_nullability_from_detail u detail = elim (declared_return_in_detail u detail) [
  | none ↦ unknown
  | some declared ↦ if declared.nullable then nullable else non_null
]

abbrev pub collection_types : List String
collection_types =
    "List" ∷ "MutableList" ∷ "ArrayList" ∷ "ImmutableList" ∷ "PersistentList" ∷ "ImmutableSet"
    ∷ "PersistentSet" ∷ "ImmutableCollection" ∷ "PersistentCollection" ∷ "Set" ∷ "MutableSet"
    ∷ "HashSet" ∷ "LinkedHashSet" ∷ "Collection" ∷ "MutableCollection" ∷ "Iterable"
    ∷ "MutableIterable" ∷ "Sequence" ∷ "Flow" ∷ "StateFlow" ∷ "SharedFlow" ∷ "Channel"
    ∷ "SendChannel" ∷ "ReceiveChannel" ∷ "Array" ∷ []

abbrev pub collection_table : List Text
collection_table = map codes collection_types

unfoldable pub is_collection_constructor : Text → Bool
unfolding last_segment
is_collection_constructor type_name = contains collection_table (last_segment type_name)

trim_matches : ℕ → Text → Text
trim_matches c s = drop_end_while (λ d. d == c) (drop_while (λ d. d == c) s)

element_of : Unicode → Text → Option Text
unfolding first_type_arg trim trim_matches dotted_ident_prefix split starts_with_uppercase
element_of u inner =
    let first = trim_matches b'?' (trim (first_type_arg inner)) in
    let prefix = drop_end_while (λ c. c == b'.') (dotted_ident_prefix u first) in
    let first_seg = unwrap_or (head? (split (λ c. c == b'.') prefix)) prefix in
    if is_empty prefix || not (starts_with_uppercase u first_seg) then none else some first

unfoldable pub extract_collection_element_type : Unicode → Text → Option Text
unfolding ident_prefix find_char rfind_char element_of
extract_collection_element_type u raw_type =
    if not (contains collection_table (ident_prefix u raw_type)) then none else do
      open_ ← find_char b'<' raw_type
      close ← rfind_char b'>' raw_type
      if leb close open_ then none else element_of u (slice (open_ + 1) close raw_type)
