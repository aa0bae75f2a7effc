-- ===== src/Workspace/Documents/Live.antt =====
-- The diagnostics that a task publishes are of the live text: workspace/file_change_handler.rs.
use kmp_lsp.Base.{
  ℕ, ◌≡◌, refl, true, not, ◌&&◌, Option, none, some, List, [], ◌∷◌, ◌==◌, if◌then◌else◌, All,
  if_keep, is_some,
}
use kmp_lsp.Workspace.Root.{fetch_add_one}
use kmp_lsp.Text.{Text}
use kmp_lsp.Workspace.Documents.{
  put, Stage, sleeping, indexing, diagnosing, Task, Work, reindex, tree_update, Job, Documents,
  Parser, store_live_tree, abort, set_cell, with_cell, bump, cell_of, reschedule_debounced_reindex,
  spawn_live_tree_update, set_live_lines, drain_file_changed_batch, handle_file_changed,
  cancel_pending_reindex, remove_live, clear_diagnostics, handle_file_closed, remove_indexed_file,
  handle_file_deleted, index_content, run_job, run_task, pick, Move, changes, closes, deletes,
  task_runs, job_runs, step, run, changed, advance, picked_task, picked_job, write, skip, is_done,
  unchanged,
}
use kmp_lsp.Workspace.Documents.Handles.{
  IsLive, abort-Elsewhere, others-IsLive, put_self, AllPicked, pick-AllPicked,
}

pub record IsValid (d : Documents) : Type 0 where
  pub tasks_live : All (IsLive d.live_lines d.pending_reindex) d.tasks
  pub published_live : All (λ q. q.live_then ≡ q.of_text) d.published

bump-IsValid : (uri : Text) (d : Documents) → IsValid d → IsValid (bump uri d)
unfolding bump
bump-IsValid uri d v = by_cell (d.diagnostic_generation uri)
  where
    by_cell :
        (o : Option ℕ)
        → IsValid (
            let d' = with_cell uri o d in
            record d' {
              cells =
                  set_cell (cell_of uri d') (fetch_add_one (d'.cells (cell_of uri d'))) d'.cells;
            })
    by_cell none = record { tasks_live = v.tasks_live; published_live = v.published_live }
    by_cell (some c) = record { tasks_live = v.tasks_live; published_live = v.published_live }

changed-IsValid :
    (uri text : Text) (d : Documents)
    → IsValid d
    → IsValid (
        reschedule_debounced_reindex uri text
          (spawn_live_tree_update uri text (set_live_lines uri text d)))
unfolding reschedule_debounced_reindex spawn_live_tree_update set_live_lines
changed-IsValid uri text d v = record {
  tasks_live = (
    (put_self uri (some text) d.live_lines, put_self uri (some d.next_task) d.pending_reindex),
    others-IsLive d.live_lines d.pending_reindex uri (some text) (some d.next_task)
        (abort (d.pending_reindex uri) d.tasks)
        (abort-Elsewhere d.live_lines d.pending_reindex uri (d.pending_reindex uri) d.tasks refl
          v.tasks_live),
  );
  published_live = v.published_live;
}

-- A document whose tasks were aborted loses its live text and its handle.
remove_live-IsValid :
    (uri : Text) (files : Text → Option Text) (d : Documents)
    → IsValid d
    → IsValid (remove_live uri (record (cancel_pending_reindex uri d) { files = files }))
unfolding remove_live cancel_pending_reindex
remove_live-IsValid uri files d v = record {
  tasks_live =
      others-IsLive d.live_lines d.pending_reindex uri none none
        (abort (d.pending_reindex uri) d.tasks)
        (abort-Elsewhere d.live_lines d.pending_reindex uri (d.pending_reindex uri) d.tasks refl
          v.tasks_live);
  published_live = v.published_live;
}

-- The empty list is published when the text is gone.
clear_diagnostics-IsValid :
    (uri : Text) (d : Documents)
    → d.live_lines uri ≡ none
    → IsValid d
    → IsValid (clear_diagnostics uri d)
unfolding clear_diagnostics
clear_diagnostics-IsValid uri d e v =
    if_keep IsValid d.has_client _ _
      (record { tasks_live = v.tasks_live; published_live = (e, v.published_live) }) v

handle_file_closed-IsValid :
    (uri : Text) (d : Documents) → IsValid d → IsValid (handle_file_closed uri d)
unfolding handle_file_closed remove_live
handle_file_closed-IsValid uri d v =
    clear_diagnostics-IsValid uri (remove_live uri (cancel_pending_reindex uri d))
      (put_self uri none (cancel_pending_reindex uri d).live_lines)
      (remove_live-IsValid uri (cancel_pending_reindex uri d).files d v)

handle_file_deleted-IsValid :
    (uri : Text) (d : Documents) → IsValid d → IsValid (handle_file_deleted uri d)
unfolding handle_file_deleted remove_live remove_indexed_file
handle_file_deleted-IsValid uri d v =
    let c = cancel_pending_reindex uri d in
    clear_diagnostics-IsValid uri (remove_live uri (remove_indexed_file uri c))
      (put_self uri none c.live_lines) (remove_live-IsValid uri (put uri none c.files) d v)

handle_file_changed-IsValid :
    (uri : Text) (texts : List Text) (d : Documents)
    → IsValid d
    → IsValid (handle_file_changed uri texts d)
unfolding handle_file_changed
handle_file_changed-IsValid uri texts d v = by_text (drain_file_changed_batch texts)
  where
    by_text : (o : Option Text) → IsValid (changed uri o d)
    by_text none = v
    by_text (some text) = changed-IsValid uri text (bump uri d) (bump-IsValid uri d v)

-- A list of tasks that is as live as before gives a valid state.
with_tasks :
    (d : Documents) (tasks : List Task)
    → All (IsLive d.live_lines d.pending_reindex) tasks
    → IsValid d
    → IsValid (record d { tasks = tasks })
with_tasks d tasks h v = record { tasks_live = h; published_live = v.published_live }

advance-IsValid :
    (t : Task) (s : Stage) (d : Documents)
    → IsLive d.live_lines d.pending_reindex t
    → IsValid d
    → IsValid (advance t s d)
advance-IsValid t sleeping d l v = record {
  tasks_live = (l, v.tasks_live);
  published_live = v.published_live;
}
advance-IsValid t indexing d l v =
    if_keep IsValid (not (is_done t.id d)) _ _ (with_tasks d (t ∷ d.tasks) (l, v.tasks_live) v) (
      if_keep IsValid (d.has_client && d.cells t.cell == t.my_generation) _ _
        (with_tasks d (record t { stage = diagnosing } ∷ d.tasks) (l, v.tasks_live) v) v)
advance-IsValid t diagnosing d l v =
    if_keep IsValid (d.cells t.cell == t.my_generation) _ _
      (record { tasks_live = v.tasks_live; published_live = (l.0, v.published_live) }) v

picked_task-IsValid :
    (o : Option (Task × List Task)) (d : Documents)
    → AllPicked (IsLive d.live_lines d.pending_reindex) o
    → IsValid d
    → IsValid (picked_task o d)
unfolding run_task
picked_task-IsValid none d h v = v
picked_task-IsValid (some (t, rest)) d (l, ls) v =
    advance-IsValid t t.stage (record d { tasks = rest }) l (with_tasks d rest ls v)

-- The indexer's own maps, and the jobs, have no part in what is valid.
same_tasks :
    (files trees : Text → Option Text) (hashes : Text → Option ℕ) (jobs : List Job)
    (finished : List ℕ) (d : Documents)
    → IsValid d
    → IsValid (record d {
      files = files;
      live_trees = trees;
      content_hashes = hashes;
      jobs = jobs;
      finished = finished;
    })
same_tasks files trees hashes jobs finished d v = record {
  tasks_live = v.tasks_live;
  published_live = v.published_live;
}

module _ (p : Parser) where
  write-IsValid : (j : Job) (w : Work) (d : Documents) → IsValid d → IsValid (write p j w d)
  unfolding index_content store_live_tree
  write-IsValid j tree_update d v =
      same_tasks d.files
        (put j.job_uri (if p.parses_live j.job_uri j.job_text then some j.job_text else none)
          d.live_trees)
        d.content_hashes d.jobs d.finished d v
  write-IsValid j (reindex task) d v =
      if_keep (λ d'. IsValid (record d' { finished = task ∷ d'.finished }))
        (unchanged p (d.content_hashes j.job_uri) (p.hash_str j.job_text)) _ _
        (same_tasks d.files d.live_trees d.content_hashes d.jobs (task ∷ d.finished) d v)
        (same_tasks (put j.job_uri (some j.job_text) d.files) d.live_trees
          (put j.job_uri (some (p.hash_str j.job_text)) d.content_hashes) d.jobs (task ∷ d.finished)
          d v)

  skip-IsValid : (w : Work) (d : Documents) → IsValid d → IsValid (skip p w d)
  skip-IsValid tree_update d v = v
  skip-IsValid (reindex task) d v =
      same_tasks d.files d.live_trees d.content_hashes d.jobs (task ∷ d.finished) d v

  run_job-IsValid : (j : Job) (d : Documents) → IsValid d → IsValid (run_job p j d)
  unfolding run_job
  run_job-IsValid j d v = if_keep IsValid j.passed _ _ (write-IsValid j j.work d v) (
      if_keep IsValid (is_some (d.live_lines j.job_uri)) _ _
        (same_tasks d.files d.live_trees d.content_hashes (record j { passed = true } ∷ d.jobs)
          d.finished d v)
        (skip-IsValid j.work d v))

  picked_job-IsValid :
      (o : Option (Job × List Job)) (d : Documents) → IsValid d → IsValid (picked_job p o d)
  picked_job-IsValid none d v = v
  picked_job-IsValid (some (j, rest)) d v =
      run_job-IsValid j (record d { jobs = rest })
        (same_tasks d.files d.live_trees d.content_hashes rest d.finished d v)

  step-IsValid : (m : Move) (d : Documents) → IsValid d → IsValid (step p m d)
  unfolding step
  step-IsValid (changes uri texts) d v = handle_file_changed-IsValid uri texts d v
  step-IsValid (closes uri) d v = handle_file_closed-IsValid uri d v
  step-IsValid (deletes uri) d v = handle_file_deleted-IsValid uri d v
  step-IsValid (task_runs n) d v =
      picked_task-IsValid (pick n d.tasks) d
        (pick-AllPicked (IsLive d.live_lines d.pending_reindex) n d.tasks v.tasks_live) v
  step-IsValid (job_runs n) d v = picked_job-IsValid (pick n d.jobs) d v

  -- From a state whose tasks each hold the live text of their document and are its retained task,
  -- and whose diagnostics were of the text that was live when they were published, any sequence of
  -- edits, closes, deletions and stretches of the spawned tasks and jobs leads to such a state:
  -- diagnostics are published only of the text that is live then, and an empty list only where
  -- none is.
  pub run-IsLive : (ms : List Move) (d : Documents) → IsValid d → IsValid (run p ms d)
  unfolding run
  run-IsLive [] d v = v
  run-IsLive (m ∷ ms) d v = run-IsLive ms (step p m d) (step-IsValid m d v)
