-- ===== src/Keywords.antt =====
-- The word tables of text_utils.rs, and `is_keyword_for_file` with the binary search of Rust's
-- slices. Strings compare by their UTF-8 bytes, in the order of their code points.
mod Tests
pub mod Complete
use Prim.Native.Nat.{compare, Ordering}
use kmp_lsp.Base.{
  ℕ, zero, suc, ◌+◌, ◌-◌, ◌/◌, ◌≡◌, refl, Bool, true, false, ◌&&◌, ◌||◌, Option, none, some, List,
  [], ◌∷◌, map, String, ltb, ◌==◌, if◌then◌else◌, get_elem?, length, any,
}
use kmp_lsp.Text.{Text, codes, text_eq, ends_with}

abbrev pub kotlin_keywords : List String
kotlin_keywords =
    "abstract" ∷ "actual" ∷ "annotation" ∷ "as" ∷ "break" ∷ "by" ∷ "catch" ∷ "class" ∷ "companion"
    ∷ "const" ∷ "constructor" ∷ "continue" ∷ "crossinline" ∷ "data" ∷ "delegate" ∷ "do" ∷ "dynamic"
    ∷ "else" ∷ "enum" ∷ "expect" ∷ "external" ∷ "false" ∷ "field" ∷ "file" ∷ "final" ∷ "finally"
    ∷ "for" ∷ "fun" ∷ "get" ∷ "if" ∷ "import" ∷ "in" ∷ "infix" ∷ "init" ∷ "inline" ∷ "inner"
    ∷ "interface" ∷ "internal" ∷ "is" ∷ "it" ∷ "lateinit" ∷ "noinline" ∷ "null" ∷ "object" ∷ "open"
    ∷ "operator" ∷ "out" ∷ "override" ∷ "package" ∷ "param" ∷ "private" ∷ "property" ∷ "protected"
    ∷ "public" ∷ "receiver" ∷ "reified" ∷ "return" ∷ "sealed" ∷ "set" ∷ "setparam" ∷ "super"
    ∷ "suspend" ∷ "tailrec" ∷ "this" ∷ "throw" ∷ "true" ∷ "try" ∷ "typealias" ∷ "typeof" ∷ "val"
    ∷ "value" ∷ "var" ∷ "vararg" ∷ "when" ∷ "where" ∷ "while" ∷ []

abbrev pub kotlin_builtin_types : List String
kotlin_builtin_types =
    "Any" ∷ "Array" ∷ "Boolean" ∷ "BooleanArray" ∷ "Byte" ∷ "ByteArray" ∷ "Char" ∷ "CharArray"
    ∷ "CharSequence" ∷ "Cloneable" ∷ "Comparable" ∷ "Double" ∷ "DoubleArray" ∷ "Enum" ∷ "Float"
    ∷ "FloatArray" ∷ "Int" ∷ "IntArray" ∷ "Iterable" ∷ "Iterator" ∷ "List" ∷ "ListIterator" ∷ "Long"
    ∷ "LongArray" ∷ "Map" ∷ "MutableCollection" ∷ "MutableIterable" ∷ "MutableIterator"
    ∷ "MutableList" ∷ "MutableListIterator" ∷ "MutableMap" ∷ "MutableSet" ∷ "Nothing" ∷ "Number"
    ∷ "Pair" ∷ "Set" ∷ "Short" ∷ "ShortArray" ∷ "String" ∷ "Throwable" ∷ "Triple" ∷ "Unit"
    ∷ "AutoCloseable" ∷ "Class" ∷ "Error" ∷ "Exception" ∷ "IllegalArgumentException"
    ∷ "IllegalStateException" ∷ "IndexOutOfBoundsException" ∷ "NullPointerException" ∷ "Object"
    ∷ "RuntimeException" ∷ "Runnable" ∷ "StringBuilder" ∷ "Thread" ∷ "UnsupportedOperationException"
    ∷ []

abbrev pub java_extra_keywords : List String
java_extra_keywords =
    "assert" ∷ "boolean" ∷ "byte" ∷ "case" ∷ "char" ∷ "default" ∷ "double" ∷ "extends" ∷ "float"
    ∷ "goto" ∷ "implements" ∷ "instanceof" ∷ "int" ∷ "long" ∷ "native" ∷ "new" ∷ "short" ∷ "static"
    ∷ "strictfp" ∷ "switch" ∷ "synchronized" ∷ "throws" ∷ "transient" ∷ "void" ∷ "volatile" ∷ []

abbrev pub kotlin_table : List Text
kotlin_table = map codes kotlin_keywords

abbrev pub java_table : List Text
java_table = map codes java_extra_keywords

abbrev pub compare_text : Text → Text → Ordering
compare_text [] [] = Ordering.eq
compare_text [] (d ∷ t) = Ordering.lt
compare_text (c ∷ s) [] = Ordering.gt
compare_text (c ∷ s) (d ∷ t) = elim (compare c d) [
  | Ordering.lt ↦ Ordering.lt
  | Ordering.eq ↦ compare_text s t
  | Ordering.gt ↦ Ordering.gt
]

-- `slice::binary_search`, of which only `is_ok` is read: the range is `size` entries from `base`.
-- Each round at least halves the range, so the fuel `length` is enough.
unfoldable pub search_range : ℕ → List Text → Text → ℕ → ℕ → Bool
search_range zero table x base size = false
search_range (suc fuel) table x base size =
    let half = size / 2 in
    let mid = base + half in
    let left = search_range fuel table x base half in
    let right = search_range fuel table x (mid + 1) (size - half - 1) in
    if size == 0 then false else elim (get_elem? table mid) [
      | none ↦ false
      | some y ↦ elim (compare_text y x) [
        | Ordering.lt ↦ right
        | Ordering.eq ↦ true
        | Ordering.gt ↦ left
      ]
    ]

unfoldable pub binary_search : List Text → Text → Bool
unfolding search_range
binary_search table x = search_range (suc (length table)) table x 0 (length table)

unfoldable pub is_keyword_for_file : Text → Text → Bool
unfolding binary_search
is_keyword_for_file name file_path =
    binary_search kotlin_table name
    || (ends_with (codes ".java") file_path && binary_search java_table name)
