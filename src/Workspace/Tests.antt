-- ===== src/Workspace/Tests.antt =====
-- Runs of the scheduler, the JAR crawl, the source paths and the progress.
use kmp_lsp.Base.{◌≡◌, ◌<◌, ◌+◌, refl, true, false, some, none, List, [], ◌∷◌, arith, length}
use kmp_lsp.Workspace.Queue.{ScanArgs, prioritized, full}
use kmp_lsp.Workspace.Phase.{Config, Discovery}
use kmp_lsp.Workspace.Progress
use kmp_lsp.Workspace.Progress.{
  Balanced, at_end, start_then, finish_then, starts, finishes, jar_signals, jar_signals-Balanced,
  begins, jar_starts, scan_done, jar_ends,
}
use kmp_lsp.Workspace.Jar
use kmp_lsp.Workspace.Jar.{
  Jar, JarTask, free, held, is_loading, unavailable, pending, jar_in_progress, spawned, crawling,
}
use kmp_lsp.Workspace.Jar.Coalesce
use kmp_lsp.Workspace.Jar.Coalesce.{jar-IsValid, root_change-loses_crawl}
use kmp_lsp.Workspace.Scan
use kmp_lsp.Workspace.Scan.{World, Task, waiting}
use kmp_lsp.Workspace.Scan.Moves
use kmp_lsp.Workspace.Scan.Moves.{Move, pick}
use kmp_lsp.Workspace.Scan.Valid
use kmp_lsp.Workspace.Scan.Invariant.{run-IsValid}
use kmp_lsp.Workspace.Scan.Superseded.{pending-silences, last_request_wins, newest_scan-runs}
use kmp_lsp.Workspace.Scan.Ready.{is_ready}

abbrev discovery : Discovery
discovery = record {
  json_source_paths = λ root. [];
  build_layout_source_paths = λ root. "src/main" ∷ "src/main" ∷ [];
  configured_source_paths = λ root. none;
  default_sources = some "sources";
  android_sdk_source_paths = λ root. [];
  module_dependencies = λ root. [];
}

abbrev config : Config
config = record {
  root = "/w";
  explicit_source_paths = "extra" ∷ [];
  ignore_patterns = [];
  jar_paths = [];
  pin_workspace = false;
}

abbrev idle_jar : Jar
idle_jar = record {
  in_flight = false;
  phase = pending;
  phase_poisoned = false;
  task = none;
  jar_done = 0;
  jar_files = [];
  jar_definitions = [];
  jar_uri_to_defs = [];
  jar_symbol_packages = [];
  bare_names_dirty = false;
  library_uris = [];
  cache_invalidations = 0;
}

abbrev idle : World
idle = Scan.new idle_jar

abbrev start : List Move
start = Moves.initialize free config (some 7) ∷ []

abbrev switch : List Move
switch = Moves.initialize free config (some 7) ∷ Moves.change_root free "/v" ∷ []

abbrev started : World
started = Moves.run discovery start idle

abbrev switched : World
switched = Moves.run discovery switch idle

run-IsValid_example : Valid.IsValid (Moves.run discovery switch (Scan.new idle_jar))
run-IsValid_example = run-IsValid discovery idle_jar switch (omega arith)

started-IsValid : Valid.IsValid started
started-IsValid = run-IsValid discovery idle_jar start (omega arith)

switched-IsValid : Valid.IsValid switched
switched-IsValid = run-IsValid discovery idle_jar switch (omega arith)

abbrev second : ScanArgs
second = record {
  root = "/v";
  kind = full;
  completion_tx = none;
  expected_generation = 3;
  reset_before_scan = true;
}

waits : switched.queue.pending ≡ some second
unfolding Moves.run Scan.handle_change_root Scan.handle_initialize Scan.new
waits = refl

pending-silences_example :
    ((Moves.run_picked (pick 0 switched.tasks) switched).notified ≡ switched.notified)
    × ((Moves.run_picked (pick 0 switched.tasks) switched).resets ≡ switched.resets)
pending-silences_example = pending-silences switched second 0 switched-IsValid waits

runs : started.queue.in_progress ≡ true
unfolding Moves.run Scan.handle_change_root Scan.handle_initialize Scan.new
runs = refl

last_request_wins_example :
    let w' = Scan.enqueue_scan second (Scan.enqueue_scan second started) in
    ((Scan.on_scan_completed w').tasks
      ≡ record {
        args = record second { expected_generation = w'.root.generation };
        point = waiting;
      }
        ∷ started.tasks)
    × ((Scan.on_scan_completed w').queue.pending ≡ none)
    × ((Scan.on_scan_completed w').queue.in_progress ≡ true)
last_request_wins_example = last_request_wins started second second runs

abbrev first : Task
first = record {
  args = record {
    root = "/w";
    kind = prioritized [];
    completion_tx = some 7;
    expected_generation = 1;
    reset_before_scan = false;
  };
  point = waiting;
}

no_request_waits : started.queue.pending ≡ none
unfolding Moves.run Scan.handle_change_root Scan.handle_initialize Scan.new
no_request_waits = refl

picks : pick 0 started.tasks ≡ some (first, [])
unfolding Moves.run Scan.handle_change_root Scan.handle_initialize Scan.new pick
picks = refl

newest_scan-runs_example :
    let w' =
      Moves.run discovery (Moves.run_scan 0 ∷ Moves.run_scan 0 ∷ Moves.run_scan 0 ∷ []) started in
    (w'.indexed ≡ first.args ∷ started.indexed)
    × (w'.notified ≡ 7 ∷ started.notified)
    × (w'.scan_done ≡ started.scan_done + 1)
    × (w'.tasks ≡ [])
newest_scan-runs_example =
    newest_scan-runs discovery started 0 7 first [] started-IsValid no_request_waits picks refl refl

one_task : 0 < length started.tasks
unfolding Moves.run Scan.handle_change_root Scan.handle_initialize Scan.new
one_task = omega arith

abbrev scanned : World
scanned =
    Moves.run discovery
      (Moves.initialize free config (some 7)
        ∷ Moves.run_scan 0
        ∷ Moves.run_scan 0
        ∷ Moves.run_scan 0
        ∷ [])
      idle

one_message : 0 < scanned.scan_done
unfolding Moves.run Scan.handle_change_root Scan.handle_initialize Scan.new
one_message = omega arith

abbrev settled : List Move
settled =
    Moves.initialize free config (some 7)
    ∷ Moves.run_scan 0
    ∷ Moves.run_scan 0
    ∷ Moves.run_scan 0
    ∷ Moves.scan_message
    ∷ []

abbrev quiet : World
quiet = Moves.run discovery settled idle

quiet-IsValid : Valid.IsValid quiet
quiet-IsValid = run-IsValid discovery idle_jar settled (omega arith)

quiet-is_ready : is_ready quiet ≡ true
unfolding Moves.run Scan.handle_change_root Scan.handle_initialize Scan.new is_ready
quiet-is_ready = refl

abbrev crawl_task : JarTask
crawl_task = record { expected_gen = 3; stage = spawned }

abbrev crawling_jar : Jar
crawling_jar = record idle_jar { in_flight = true; phase = jar_in_progress; task = some crawl_task }

crawling_jar-IsValid : Coalesce.IsValid crawling_jar
crawling_jar-IsValid = record { guarded = refl; settled = refl }

jar-IsValid_example :
    Coalesce.IsValid (Jar.spawn_jar_indexing free 4 crawling_jar)
    × Coalesce.IsValid (Jar.advance 3 4 none 0 crawling_jar)
    × Coalesce.IsValid (Jar.clear_jar_index free crawling_jar)
jar-IsValid_example = jar-IsValid free 4 3 0 none crawling_jar crawling_jar-IsValid

root_change-loses_crawl_example :
    let j' = Jar.spawn_jar_indexing held 4 (Jar.clear_jar_index free crawling_jar) in
    let j'' = Jar.advance 4 4 none 0 j' in
    (j'.task ≡ some crawl_task)
    × (j''.task ≡ none)
    × (j''.in_flight ≡ false)
    × (j''.jar_definitions ≡ [])
    × (is_loading j''.phase ≡ false)
root_change-loses_crawl_example =
    root_change-loses_crawl free held 4 4 0 none crawl_task crawling_jar refl refl refl refl
      (λ e. absurd (omega (arith, e))) (λ e. absurd (omega (arith, e)))

abbrev both : List Progress.Signal
both = begins "scan" ∷ jar_starts ∷ scan_done "scanned" ∷ jar_ends "jars" ∷ []
