-- ===== src/TextUtils/Replace.antt =====
-- Replacing whole words in a file.
use kmp_lsp.Base.{
  ℕ, zero, suc, ◌≡◌, refl, true, Option, none, some, List, [], ◌∷◌, ◌++◌, arith, length, drop,
}
use kmp_lsp.Text.{Text, Unicode, starts_with}
use kmp_lsp.TextUtils.{
  replace_from, replace_line, append_lines, join_lines, whole_word_replace_file,
}

starts_with-split : (p s : Text) → starts_with p s ≡ true → s ≡ p ++ drop (length p) s
starts_with-split [] s h = refl
starts_with-split (c ∷ p) [] h = cc
starts_with-split (c ∷ p) (d ∷ s) h = ground (arith, starts_with-split p s)

replace_from_self :
    (u : Unicode) (w : ℕ) (word : Text) (skip : ℕ) (previous : Option ℕ) (s : Text)
    → replace_from u (w ∷ word) (w ∷ word) skip previous s ≡ drop skip s
unfolding replace_from
replace_from_self u w word zero previous [] = refl
replace_from_self u w word (suc skip) previous [] = refl
replace_from_self u w word (suc skip) previous (c ∷ s) = replace_from_self u w word skip (some c) s
replace_from_self u w word zero previous (c ∷ s) = ground (
  arith,
  replace_from_self u w word zero (some c) s,
  replace_from_self u w word (length word) (some c) s,
  starts_with-split (w ∷ word) (c ∷ s),
)

replace_line_self :
    (u : Unicode) (w : ℕ) (word line : Text) → replace_line u (w ∷ word) (w ∷ word) line ≡ line
unfolding replace_line
replace_line_self u w word line = ground (arith, replace_from_self u w word zero none line)

append_lines_self :
    (f : Text → Text) (lines : List Text)
    → ((l : Text) → f l ≡ l)
    → append_lines f lines ≡ append_lines (λ l. l) lines
unfolding append_lines
append_lines_self f [] same = refl
append_lines_self f (l ∷ ls) same = rw (same l, append_lines_self f ls same)

-- Renaming a word to itself gives the file back, its lines joined by newlines: the scan loses and
-- doubles no character, at no word boundary.
whole_word_replace_file_self :
    (u : Unicode) (lines : List Text) (word : Text)
    → whole_word_replace_file u lines word word ≡ join_lines lines
unfolding whole_word_replace_file
whole_word_replace_file_self u lines [] = refl
whole_word_replace_file_self u [] (w ∷ word) = refl
whole_word_replace_file_self u (l ∷ ls) (w ∷ word) = rw (
  replace_line_self u w word l,
  append_lines_self (replace_line u (w ∷ word) (w ∷ word)) ls (replace_line_self u w word),
)
