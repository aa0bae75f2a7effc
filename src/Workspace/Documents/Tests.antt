-- ===== src/Workspace/Documents/Tests.antt =====
-- Runs of edits, of their tasks and jobs, and of deletions.
use kmp_lsp.Base.{◌≡◌, refl, true, some, none, List, [], ◌∷◌, length}
use kmp_lsp.Text.{Text, codes}
use kmp_lsp.Workspace.Documents
use kmp_lsp.Workspace.Documents.{
  Documents, Parser, store_live_tree, Move, changes, closes, deletes, task_runs, job_runs, run,
  step, handle_file_deleted, handle_file_changed, index_content, drain_file_changed_batch, bump,
  set_live_lines, spawn_live_tree_update, reschedule_debounced_reindex, cancel_pending_reindex,
  remove_live, remove_indexed_file, clear_diagnostics, run_job, run_task,
}
use kmp_lsp.Workspace.Documents.Live
use kmp_lsp.Workspace.Documents.Live.{run-IsLive}
use kmp_lsp.Workspace.Documents.Recreated.{recreated-missing}

abbrev fresh : Documents
fresh = record {
  live_lines = λ u. none;
  live_trees = λ u. none;
  files = λ u. none;
  content_hashes = λ u. none;
  has_client = true;
  pending_reindex = λ u. none;
  diagnostic_generation = λ u. none;
  cells = λ c. 0;
  next_cell = 0;
  next_task = 0;
  tasks = [];
  jobs = [];
  finished = [];
  published = [];
}

abbrev parser : Parser
parser = record { hash_str = length; parses_live = λ uri text. true }

abbrev a_kt : Text
a_kt = codes "file:///A.kt"

abbrev b_kt : Text
b_kt = codes "file:///B.kt"

abbrev edit : List Move
edit = changes a_kt (codes "va" ∷ codes "val x" ∷ []) ∷ []

-- The task sleeps, its job passes the guard and writes, and the diagnostics follow.
abbrev settled : List Move
settled =
    changes a_kt (codes "va" ∷ codes "val x" ∷ [])
    ∷ task_runs 0
    ∷ job_runs 0
    ∷ job_runs 0
    ∷ task_runs 0
    ∷ task_runs 0
    ∷ []

run-IsLive_example : Documents.Live.IsValid (run parser settled fresh)
run-IsLive_example =
    run-IsLive parser settled fresh (record { tasks_live = tt; published_live = tt })

recreated-missing_example :
    (index_content parser a_kt
        (codes "val x")
        (handle_file_deleted a_kt (index_content parser a_kt (codes "val x") fresh))).files
      a_kt
    ≡ none
recreated-missing_example = recreated-missing a_kt parser (codes "val x") fresh

the_edit_is_published :
    ((run parser settled fresh).files a_kt ≡ some (codes "val x"))
    × (length (run parser settled fresh).published ≡ 1)
unfolding run step handle_file_changed drain_file_changed_batch bump set_live_lines
    spawn_live_tree_update reschedule_debounced_reindex run_task run_job index_content
the_edit_is_published = (refl, refl)

-- A deletion between a job's guard and its write is undone by the write.
deleted_too_late :
    (run parser
        (changes a_kt (codes "val x" ∷ []) ∷ job_runs 0 ∷ deletes a_kt ∷ job_runs 0 ∷ [])
        fresh).live_trees
      a_kt
    ≡ some (codes "val x")
unfolding run step handle_file_changed drain_file_changed_batch bump set_live_lines
    spawn_live_tree_update reschedule_debounced_reindex run_job handle_file_deleted
    cancel_pending_reindex remove_live remove_indexed_file clear_diagnostics store_live_tree
deleted_too_late = refl

-- Two edits' jobs may be run in the other order, and the tree is then of the older text.
older_tree :
    (run parser
        (changes a_kt (codes "va" ∷ [])
          ∷ changes a_kt (codes "val" ∷ [])
          ∷ job_runs 0
          ∷ job_runs 0
          ∷ job_runs 0
          ∷ job_runs 0
          ∷ [])
        fresh).live_trees
      a_kt
    ≡ some (codes "va")
unfolding run step handle_file_changed drain_file_changed_batch bump set_live_lines
    spawn_live_tree_update reschedule_debounced_reindex run_job store_live_tree
older_tree = refl
