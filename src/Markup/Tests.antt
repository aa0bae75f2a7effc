-- ===== src/Markup/Tests.antt =====
-- Runs of the conversion from HTML.
use kmp_lsp.Base.{◌≡◌}
use kmp_lsp.Text.{codes}
use kmp_lsp.Markup.{decode_html_entities}
use kmp_lsp.Markup.Entities.{escape_html, decode_html_entities-escape_html}

decode_html_entities-escape_html_example :
    decode_html_entities (escape_html (codes "a < b && c")) ≡ codes "a < b && c"
decode_html_entities-escape_html_example = decode_html_entities-escape_html (codes "a < b && c")
