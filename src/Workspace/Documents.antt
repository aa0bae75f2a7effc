-- ===== src/Workspace/Documents.antt =====
-- Edits of open documents: workspace/file_change_handler.rs, with the close and the deletion of
-- workspace/document_handler.rs as workspace/actor.rs calls them. A move is one message, or one
-- stretch of a spawned task between two points where another may run, so a list of moves is an
-- interleaving. An aborted task is gone, since it stops at such a point; a blocking job that was
-- spawned goes on.
pub mod Live
pub mod Gone
pub mod Handles
pub mod Recreated
mod Tests
use kmp_lsp.Base.{
  ℕ, zero, suc, ◌+◌, Bool, true, false, not, ◌&&◌, ◌||◌, Option, none, some, List, [], ◌∷◌, ◌++◌,
  ◌==◌, if◌then◌else◌, is_some, any, keep, get_last?, unwrap_or,
}
use kmp_lsp.Text.{Text, text_eq}
use kmp_lsp.Workspace.Root.{fetch_add_one}

-- A map by the texts of URLs.
abbrev pub put {ℓ} : {A : Type ℓ} → Text → A → (Text → A) → Text → A
put k v m x = if text_eq k x then v else m x

pub data Stage : Type 0 where
  sleeping indexing diagnosing : Stage

-- A debounced task; `cell` is the counter that it shares with the handler.
pub record Task : Type 0 where
  pub id : ℕ
  pub uri : Text
  pub text : Text
  pub cell : ℕ
  pub my_generation : ℕ
  pub stage : Stage

pub data Work : Type 0 where
  reindex : (task : ℕ) → Work
  tree_update : Work

-- A blocking job; `passed` once it has seen that the document is open.
pub record Job : Type 0 where
  pub work : Work
  pub job_uri : Text
  pub job_text : Text
  pub passed : Bool

-- Diagnostics that were published, of a text or, for none, an empty list, with the live text of
-- that moment.
pub record Published : Type 0 where
  pub of_uri : Text
  pub of_text : Option Text
  pub live_then : Option Text

-- The indexer's maps by the text that they were made from, and the handler's own.
pub record Documents : Type 0 where
  pub live_lines : Text → Option Text
  pub live_trees : Text → Option Text
  pub files : Text → Option Text
  pub content_hashes : Text → Option ℕ
  pub has_client : Bool
  pub pending_reindex : Text → Option ℕ
  pub diagnostic_generation : Text → Option ℕ
  pub cells : ℕ → ℕ
  pub next_cell : ℕ
  pub next_task : ℕ
  pub tasks : List Task
  pub jobs : List Job
  pub finished : List ℕ
  pub published : List Published

abbrev pub set_cell : ℕ → ℕ → (ℕ → ℕ) → ℕ → ℕ
set_cell c v m x = if c == x then v else m x

abbrev pub abort : Option ℕ → List Task → List Task
abort none tasks = tasks
abort (some id) tasks = keep (λ t. not (t.id == id)) tasks

-- `entry(..).or_insert_with(..)`.
abbrev pub with_cell : Text → Option ℕ → Documents → Documents
with_cell uri (some c) d = d
with_cell uri none d = record d {
  diagnostic_generation = put uri (some d.next_cell) d.diagnostic_generation;
  cells = set_cell d.next_cell 0 d.cells;
  next_cell = suc d.next_cell;
}

abbrev pub cell_of : Text → Documents → ℕ
cell_of uri d = unwrap_or (d.diagnostic_generation uri) d.next_cell

unfoldable pub bump : Text → Documents → Documents
bump uri d =
    let d' = with_cell uri (d.diagnostic_generation uri) d in
    record d' {
      cells = set_cell (cell_of uri d') (fetch_add_one (d'.cells (cell_of uri d'))) d'.cells;
    }

-- The retained handles are those of tasks that run: the others are looked up in vain.
unfoldable pub reschedule_debounced_reindex : Text → Text → Documents → Documents
reschedule_debounced_reindex uri text d = record d {
  pending_reindex = put uri (some d.next_task) d.pending_reindex;
  next_task = suc d.next_task;
  tasks =
      record {
        id = d.next_task;
        uri = uri;
        text = text;
        cell = cell_of uri d;
        my_generation = d.cells (cell_of uri d);
        stage = sleeping;
      }
      ∷ abort (d.pending_reindex uri) d.tasks;
}

unfoldable pub spawn_live_tree_update : Text → Text → Documents → Documents
spawn_live_tree_update uri text d = record d {
  jobs = record { work = tree_update; job_uri = uri; job_text = text; passed = false } ∷ d.jobs;
}

unfoldable pub set_live_lines : Text → Text → Documents → Documents
set_live_lines uri text d = record d { live_lines = put uri (some text) d.live_lines }

unfoldable pub drain_file_changed_batch : List Text → Option Text
drain_file_changed_batch changes = get_last? changes

abbrev changed : Text → Option Text → Documents → Documents
changed uri none d = d
changed uri (some text) d =
    reschedule_debounced_reindex uri text
      (spawn_live_tree_update uri text (set_live_lines uri text (bump uri d)))

unfoldable pub handle_file_changed : Text → List Text → Documents → Documents
handle_file_changed uri changes d = changed uri (drain_file_changed_batch changes) d

unfoldable pub cancel_pending_reindex : Text → Documents → Documents
cancel_pending_reindex uri d = record d {
  tasks = abort (d.pending_reindex uri) d.tasks;
  pending_reindex = put uri none d.pending_reindex;
  diagnostic_generation = put uri none d.diagnostic_generation;
}

unfoldable pub remove_live : Text → Documents → Documents
remove_live uri d = record d {
  live_trees = put uri none d.live_trees;
  live_lines = put uri none d.live_lines;
}

unfoldable pub clear_diagnostics : Text → Documents → Documents
clear_diagnostics uri d =
    if d.has_client
    then record d {
      published =
          record { of_uri = uri; of_text = none; live_then = d.live_lines uri } ∷ d.published;
    }
    else d

unfoldable pub handle_file_closed : Text → Documents → Documents
handle_file_closed uri d = clear_diagnostics uri (remove_live uri (cancel_pending_reindex uri d))

unfoldable pub remove_indexed_file : Text → Documents → Documents
remove_indexed_file uri d = record d { files = put uri none d.files }

-- The actor cancels, then the handler removes.
unfoldable pub handle_file_deleted : Text → Documents → Documents
handle_file_deleted uri d =
    clear_diagnostics uri (remove_live uri (remove_indexed_file uri (cancel_pending_reindex uri d)))

-- What is made of a text: its hash, and whether the parser has a tree for it in that document.
pub record Parser : Type 0 where
  pub hash_str : Text → ℕ
  pub parses_live : Text → Text → Bool

module _ (p : Parser) where
  abbrev pub unchanged : Option ℕ → ℕ → Bool
  unchanged none h = false
  unchanged (some g) h = g == h

  -- The text is not parsed again where its hash is the one on record.
  unfoldable pub index_content : Text → Text → Documents → Documents
  index_content uri text d =
      if unchanged (d.content_hashes uri) (p.hash_str text) then d else record d {
        files = put uri (some text) d.files;
        content_hashes = put uri (some (p.hash_str text)) d.content_hashes;
      }

  unfoldable pub store_live_tree : Text → Text → Documents → Documents
  store_live_tree uri text d = record d {
    live_trees = put uri (if p.parses_live uri text then some text else none) d.live_trees;
  }

  abbrev pub write : Job → Work → Documents → Documents
  write j tree_update d = store_live_tree j.job_uri j.job_text d
  write j (reindex task) d =
      let d' = index_content j.job_uri j.job_text d in record d' { finished = task ∷ d'.finished }

  abbrev pub skip : Work → Documents → Documents
  skip tree_update d = d
  skip (reindex task) d = record d { finished = task ∷ d.finished }

  -- A stretch of a job that was taken from the list: the guard, or the write behind it.
  unfoldable pub run_job : Job → Documents → Documents
  run_job j d =
      if j.passed
      then write j j.work d
      else if is_some (d.live_lines j.job_uri)
      then record d { jobs = record j { passed = true } ∷ d.jobs }
      else skip j.work d

abbrev is_done : ℕ → Documents → Bool
is_done id d = any (λ i. i == id) d.finished

-- A stretch of a task that was taken from the list.
abbrev pub advance : Task → Stage → Documents → Documents
advance t sleeping d = record d {
  tasks = record t { stage = indexing } ∷ d.tasks;
  jobs =
      record { work = reindex t.id; job_uri = t.uri; job_text = t.text; passed = false } ∷ d.jobs;
}
advance t indexing d =
    if not (is_done t.id d)
    then record d { tasks = t ∷ d.tasks }
    else if d.has_client && d.cells t.cell == t.my_generation
    then record d { tasks = record t { stage = diagnosing } ∷ d.tasks }
    else d
advance t diagnosing d =
    if d.cells t.cell == t.my_generation
    then record d {
      published =
          record { of_uri = t.uri; of_text = some t.text; live_then = d.live_lines t.uri }
          ∷ d.published;
    }
    else d

unfoldable pub run_task : Task → Documents → Documents
run_task t d = advance t t.stage d

abbrev pub pick {ℓ} : {A : Type ℓ} → ℕ → List A → Option (A × List A)
pick n [] = none
pick zero (x ∷ xs) = some (x, xs)
pick (suc n) (x ∷ xs) = elim (pick n xs) [ none ↦ none | some (y, ys) ↦ some (y, x ∷ ys) ]

pub data Move : Type 0 where
  changes : (uri : Text) (texts : List Text) → Move
  closes deletes : (uri : Text) → Move
  task_runs job_runs : ℕ → Move

abbrev pub picked_task : Option (Task × List Task) → Documents → Documents
picked_task none d = d
picked_task (some (t, rest)) d = run_task t (record d { tasks = rest })

abbrev pub picked_job : Parser → Option (Job × List Job) → Documents → Documents
picked_job p none d = d
picked_job p (some (j, rest)) d = run_job p j (record d { jobs = rest })

unfoldable pub step : Parser → Move → Documents → Documents
step p (changes uri texts) d = handle_file_changed uri texts d
step p (closes uri) d = handle_file_closed uri d
step p (deletes uri) d = handle_file_deleted uri d
step p (task_runs n) d = picked_task (pick n d.tasks) d
step p (job_runs n) d = picked_job p (pick n d.jobs) d

unfoldable pub run : Parser → List Move → Documents → Documents
run p [] d = d
run p (m ∷ ms) d = run p ms (step p m d)
