-- ===== src/Features/Tests.antt =====
-- Runs of the formatting behind a new line.
use kmp_lsp.Base.{◌≡◌, refl, true, none, List, [], ◌∷◌, ◌++◌, arith}
use kmp_lsp.Text.{Text, codes, trim_start, trim_end, is_whitespace}
use kmp_lsp.Features.OnType.{
  line_at, indent_len, brace_newline, brace_on, comment_newline, compute_on_type_formatting,
  on_newline, leading_whitespace, is_in_string_context, string_after,
}
use kmp_lsp.Features.OnType.Settles.{
  apply_some, apply_edits, apply_edit, drop_utf16, AreBlank, comment_newline-settles,
}
use kmp_lsp.Features.OnType.Reindented.{IsIndented}
use kmp_lsp.Features.OnType.Brace.{brace_newline-settles}

abbrev block : List Text
block = codes "    run {" ∷ codes "  " ∷ codes "}" ∷ []

abbrev four : Text
four = codes "    "

ran :
    apply_some
      (compute_on_type_formatting block
        (record { line = 1; character = 2 })
        (10 ∷ [])
        (record { tab_size = 4; insert_spaces = true }))
      block
    ≡ codes "    run {" ∷ codes "        " ∷ codes "    }" ∷ []
unfolding apply_some apply_edits apply_edit drop_utf16 compute_on_type_formatting on_newline
    brace_newline brace_on line_at indent_len leading_whitespace is_in_string_context string_after
    trim_start trim_end is_whitespace
ran = refl

cursor : IsIndented (line_at block 1)
unfolding line_at
cursor = record {
  indent = codes "  ";
  rest = [];
  blank = (refl, (refl, tt));
  ink = tt;
  whole = refl;
  fits = omega arith;
}

closing : IsIndented (line_at block 2)
unfolding line_at is_whitespace
closing = record {
  indent = [];
  rest = codes "}";
  blank = tt;
  ink = refl;
  whole = refl;
  fits = omega arith;
}

brace_newline-settles_example :
    brace_newline (apply_some (brace_newline block 1 four four) block) 1 four four ≡ none
unfolding cursor
brace_newline-settles_example =
    brace_newline-settles block 1 four four cursor closing (omega arith) (omega arith) blanks blanks
      refl
  where
    blanks : AreBlank four
    blanks = (refl, (refl, (refl, (refl, tt))))

abbrev comment : List Text
comment = codes "  // a" ∷ codes "  b" ∷ []

b_is_ink : line_at comment 1 ≡ codes "  " ++ codes "b"
unfolding line_at
b_is_ink = refl

comment_newline-settles_example :
    comment_newline
      (apply_some (comment_newline comment 1 (codes "  ") (codes "//")) comment)
      1
      (codes "  ")
      (codes "//")
    ≡ none
unfolding is_whitespace
comment_newline-settles_example =
    comment_newline-settles comment 1 (codes "  ") (codes "b") (codes "  ") (codes "//")
      (omega arith) (omega arith) (omega arith) (refl, (refl, tt)) refl (refl, (refl, tt)) refl
      b_is_ink
