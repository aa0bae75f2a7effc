-- ===== src/Keywords/Tests.antt =====
-- Runs of the keyword test of text_utils.rs.
use kmp_lsp.Base.{◌≡◌, refl, false, ◌||◌, ◌&&◌}
use kmp_lsp.Text.{codes, contains, ends_with}
use kmp_lsp.Keywords.{is_keyword_for_file, kotlin_table, java_table}
use kmp_lsp.Keywords.Complete.{is_keyword_for_file-contains}

is_keyword_for_file-contains_example :
    is_keyword_for_file (codes "synchronized") (codes "A.java") ≡ (
      contains kotlin_table (codes "synchronized")
      || (ends_with (codes ".java") (codes "A.java") && contains java_table (codes "synchronized")))
is_keyword_for_file-contains_example =
    is_keyword_for_file-contains (codes "synchronized") (codes "A.java")

java_only_in_java : is_keyword_for_file (codes "synchronized") (codes "A.kt") ≡ false
unfolding is_keyword_for_file
java_only_in_java = refl
