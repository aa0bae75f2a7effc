-- ===== src/Workspace/Documents/Gone.antt =====
-- A deleted document stays out of the indexer's maps: workspace/file_change_handler.rs with the
-- deletion of workspace/document_handler.rs.
use kmp_lsp.Base.{◌≡◌, Bool, true, false, not, ◌&&◌, none, All}
use kmp_lsp.Text.{Text, text_eq}
use kmp_lsp.Workspace.Documents.{
  Job, Documents, Move, changes, closes, deletes, task_runs, job_runs,
}

-- A job of the document that is past its guard will write whatever happens.
abbrev pub is_past_guard : Text → Job → Bool
is_past_guard uri j = text_eq j.job_uri uri && j.passed

abbrev pub leaves : Text → Move → Bool
leaves uri (changes u texts) = not (text_eq u uri)
leaves uri (closes u) = true
leaves uri (deletes u) = true
leaves uri (task_runs n) = true
leaves uri (job_runs n) = true

pub record IsGone (uri : Text) (d : Documents) : Type 0 where
  pub no_lines : d.live_lines uri ≡ none
  pub no_tree : d.live_trees uri ≡ none
  pub no_file : d.files uri ≡ none
  pub guarded : All (λ j. is_past_guard uri j ≡ false) d.jobs
