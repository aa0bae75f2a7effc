-- ===== src/TextUtils/Tests.antt =====
-- Runs of the searches and of the rename of text_utils.rs.
use kmp_lsp.Base.{◌≡◌, refl, true, false, [], ◌∷◌}
use kmp_lsp.Text.{codes, trim_start, ascii_table}
use kmp_lsp.TextUtils.{is_declaration_of, whole_word_replace_file}

declares_create : is_declaration_of (codes "  fun create(n: Int)") (codes "create") ≡ true
unfolding is_declaration_of
declares_create = refl

-- A second declaration on the line is not looked at behind a longer name.
first_occurrence_decides :
    is_declaration_of (codes "fun createAll() = 1; fun create() = 2") (codes "create") ≡ false
unfolding is_declaration_of
first_occurrence_decides = refl

renames_whole_words :
    whole_word_replace_file ascii_table
      (codes "val x = xs + x" ∷ codes "x" ∷ [])
      (codes "x")
      (codes "yy")
    ≡ codes "val yy = xs + yy\nyy"
unfolding whole_word_replace_file trim_start
renames_whole_words = refl
