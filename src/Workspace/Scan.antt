-- ===== src/Workspace/Scan.antt =====
-- workspace/scan_handler.rs and the scan arms of workspace/actor.rs. `World` holds what the
-- handlers and the spawned scan tasks share; a poisoned lock of the settings is not modelled.
pub mod Moves
pub mod Busy
pub mod Valid
pub mod Generations
pub mod Invariant
pub mod Superseded
pub mod Drain
pub mod Ready
use kmp_lsp.Base.{
  ℕ, zero, suc, ◌+◌, ◌≡◌, refl, Bool, true, false, Option, none, some, List, [], ◌∷◌, String, arith,
  ◌==◌, if◌then◌else◌, is_empty, ◌>>=◌, is_some,
}
use kmp_lsp.Workspace.Root
use kmp_lsp.Workspace.Root.{FilePath, WorkspaceRoot}
use kmp_lsp.Workspace.Queue
use kmp_lsp.Workspace.Queue.{ScanQueue, ScanArgs, ScanKind, prioritized, full}
use kmp_lsp.Workspace.Phase
use kmp_lsp.Workspace.Phase.{Config, Discovery, State, ReadyState, uninitialized, ready}
use kmp_lsp.Workspace.Jar
use kmp_lsp.Workspace.Jar.{Jar, TryLock, CompiledJarsOutcome}

-- Where a spawned `execute_scan` task stands: before its check of the generation, in the indexer,
-- or between its two sends.
pub data Point : Type 0 where
  waiting indexing reported : Point

pub record Task : Type 0 where
  pub args : ScanArgs
  pub point : Point

-- What `apply_config` writes into the indexer and the handler.
pub record Settings : Type 0 where
  pub configured_jar_paths : List String
  pub ignore_patterns : Option (List String)
  pub workspace_pinned : Bool
  pub source_paths_raw : List String
  pub workspace_source_roots : List String
  pub module_dependencies : List (FilePath × List String)

-- The Tier-1 and materialization maps, by their keys.
pub record Tier1 : Type 0 where
  pub materialized : List ℕ
  pub materialization_failed : List ℕ
  pub jar_qualified : List String
  pub jar_bare_names : List String
  pub jar_extension_receivers : List String

-- `tasks` are the live scan tasks, `scan_done` counts the messages to the actor, `notified` are
-- the senders that fired, `indexed` the scans that reached the indexer, both the latest first.
pub record World : Type 0 where
  pub state : State
  pub root : WorkspaceRoot
  pub queue : ScanQueue
  pub tasks : List Task
  pub scan_done : ℕ
  pub notified : List ℕ
  pub indexed : List ScanArgs
  pub resets : ℕ
  pub settings : Settings
  pub tier1 : Tier1
  pub jar : Jar

-- `Actor::new` over a fresh `Indexer`, whose JAR side is given.
unfoldable pub new : Jar → World
unfolding Root.new Queue.new
new jar = record {
  state = uninitialized;
  root = Root.new;
  queue = Queue.new;
  tasks = [];
  scan_done = 0;
  notified = [];
  indexed = [];
  resets = 0;
  settings = record {
    configured_jar_paths = [];
    ignore_patterns = none;
    workspace_pinned = false;
    source_paths_raw = [];
    workspace_source_roots = [];
    module_dependencies = [];
  };
  tier1 = record {
    materialized = [];
    materialization_failed = [];
    jar_qualified = [];
    jar_bare_names = [];
    jar_extension_receivers = [];
  };
  jar = jar;
}

unfoldable pub is_scanning : World → Bool
unfolding Queue.is_in_progress
is_scanning w = Queue.is_in_progress w.queue

-- `tokio::spawn`: the task has not run yet.
unfoldable pub execute_scan : ScanArgs → World → World
execute_scan args w = record w { tasks = record { args = args; point = waiting } ∷ w.tasks }

unfoldable pub execute_next : Option ScanArgs → World → World
unfolding execute_scan
execute_next none w = w
execute_next (some args) w = execute_scan args w

unfoldable pub start_next : World → World
unfolding Queue.try_start execute_next
start_next w =
    let (queue, next) = Queue.try_start w.queue in execute_next next (record w { queue = queue })

unfoldable pub on_scan_completed : World → World
unfolding Queue.completed start_next
on_scan_completed w = start_next (record w { queue = Queue.completed w.queue })

bump_if_busy : World → World
unfolding Root.bump_generation Queue.is_in_progress
bump_if_busy w =
    if Queue.is_in_progress w.queue then record w { root = Root.bump_generation w.root } else w

unfoldable pub enqueue_scan : ScanArgs → World → World
unfolding bump_if_busy Queue.request start_next
enqueue_scan args w =
    let bumped = bump_if_busy w in
    let stamped = record args { expected_generation = bumped.root.generation } in
    start_next (record bumped { queue = Queue.request stamped bumped.queue })

-- The arguments that the handlers hand to `enqueue_scan`, which stamps the generation.
abbrev pub scan_request : FilePath → ScanKind → Option ℕ → Bool → ScanArgs
scan_request root kind completion_tx reset_before_scan = record {
  root = root;
  kind = kind;
  completion_tx = completion_tx;
  expected_generation = 0;
  reset_before_scan = reset_before_scan;
}

unfoldable pub spawn_jar_indexing : TryLock → World → World
unfolding Jar.spawn_jar_indexing
spawn_jar_indexing lock w = record w { jar = Jar.spawn_jar_indexing lock w.root.generation w.jar }

pub clear_tier1 : World → World
clear_tier1 w = record w {
  tier1 = record {
    materialized = [];
    materialization_failed = [];
    jar_qualified = [];
    jar_bare_names = [];
    jar_extension_receivers = [];
  };
}

pub reindex_root : TryLock → Option FilePath → World → World
unfolding clear_tier1 enqueue_scan spawn_jar_indexing
reindex_root lock none w = w
reindex_root lock (some root) w =
    spawn_jar_indexing lock (enqueue_scan (scan_request root full none true) (clear_tier1 w))

unfoldable pub handle_reindex : TryLock → World → World
unfolding reindex_root Root.get
handle_reindex lock w = reindex_root lock (Root.get w.root) w

pub root_config : FilePath → Config
root_config root = record {
  root = root;
  explicit_source_paths = [];
  ignore_patterns = [];
  jar_paths = [];
  pin_workspace = true;
}

abbrev pub paths_of : Option FilePath → List FilePath
paths_of none = []
paths_of (some p) = p ∷ []

module _ (d : Discovery) where
  unfoldable pub apply_config : Config → World → World
  unfolding Root.set Phase.set_state Phase.from_config
  apply_config c w =
      let ready_state = Phase.from_config d c in
      record w {
        root = Root.set c.root w.root;
        settings = record {
          configured_jar_paths = c.jar_paths;
          ignore_patterns = if is_empty c.ignore_patterns then none else some c.ignore_patterns;
          workspace_pinned = c.pin_workspace;
          source_paths_raw = ready_state.source_paths;
          workspace_source_roots = d.json_source_paths c.root;
          module_dependencies = d.module_dependencies c.root;
        };
        state = Phase.set_state ready_state w.state;
      }

  unfoldable pub handle_initialize : TryLock → Config → Option ℕ → World → World
  unfolding apply_config enqueue_scan spawn_jar_indexing
  handle_initialize lock c completion_tx w =
      spawn_jar_indexing lock
        (enqueue_scan (scan_request c.root (prioritized []) completion_tx false) (apply_config c w))

  unfoldable pub handle_change_root : TryLock → FilePath → World → World
  unfolding Jar.clear_jar_index root_config apply_config enqueue_scan spawn_jar_indexing
  handle_change_root lock root w = spawn_jar_indexing lock (
      enqueue_scan (scan_request root full none true)
        (apply_config (root_config root) (record w { jar = Jar.clear_jar_index lock w.jar })))

  unfoldable pub switch_workspace_root_for_opened_document :
      TryLock → FilePath → Option FilePath → World → World
  unfolding root_config apply_config enqueue_scan spawn_jar_indexing
  switch_workspace_root_for_opened_document lock workspace_root opened_file_path w =
      spawn_jar_indexing lock (
        enqueue_scan
          (scan_request workspace_root (prioritized (paths_of opened_file_path)) none true)
          (apply_config (root_config workspace_root) w))

-- The three stretches of the spawned task. The first reads the generation.
unfoldable pub run_waiting : ScanArgs → World → World
run_waiting args w =
    if w.root.generation == args.expected_generation
    then record w {
      tasks = record { args = args; point = indexing } ∷ w.tasks;
      resets = if args.reset_before_scan then w.resets + 1 else w.resets;
    }
    else record w { scan_done = w.scan_done + 1 }

-- The indexer returns, and the task reports to the actor.
unfoldable pub run_indexing : ScanArgs → World → World
run_indexing args w = record w {
  tasks = record { args = args; point = reported } ∷ w.tasks;
  indexed = args ∷ w.indexed;
  scan_done = w.scan_done + 1;
}

notify : Option ℕ → World → World
notify none w = w
notify (some tx) w = record w { notified = tx ∷ w.notified }

-- The second check of the generation, and the caller's notification.
unfoldable pub run_reported : ScanArgs → World → World
unfolding notify
run_reported args w =
    if w.root.generation == args.expected_generation then notify args.completion_tx w else w

unfoldable pub run_task : Task → World → World
unfolding run_waiting run_indexing run_reported
run_task t w = elim t.point [
  | waiting ↦ run_waiting t.args w
  | indexing ↦ run_indexing t.args w
  | reported ↦ run_reported t.args w
]
