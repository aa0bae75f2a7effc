-- ===== src/Workspace/Scan/Generations.antt =====
-- The generation of indexer/workspace_root.rs under one move.
use kmp_lsp.Base.{◌+◌, ◌≤◌, ◌≡◌, true, false, Option, none, some, List, [], arith}
use kmp_lsp.Workspace.Root.{FilePath}
use kmp_lsp.Workspace.Queue.{ScanArgs, prioritized, full}
use kmp_lsp.Workspace.Phase.{Config, Discovery}
use kmp_lsp.Workspace.Jar
use kmp_lsp.Workspace.Jar.{Jar, TryLock}
use kmp_lsp.Workspace.Scan
use kmp_lsp.Workspace.Scan.{World, Task, scan_request, paths_of}
use kmp_lsp.Workspace.Scan.Moves
use kmp_lsp.Workspace.Scan.Moves.{Move, pick}

enqueue-generation :
    (args : ScanArgs) (w : World)
    → (Scan.enqueue_scan args w).root.generation ≤ w.root.generation + 1
unfolding Scan.enqueue_scan
enqueue-generation args w = ground arith

apply_config-generation :
    (d : Discovery) (c : Config) (w : World)
    → (Scan.apply_config d c w).root.generation ≤ w.root.generation + 1
unfolding Scan.apply_config
apply_config-generation d c w = ground arith

reindex-generation :
    (lock : TryLock) (o : Option FilePath) (w : World)
    → (Scan.reindex_root lock o w).root.generation ≤ w.root.generation + 2
unfolding Scan.reindex_root Scan.spawn_jar_indexing Scan.clear_tier1
reindex-generation lock none w = omega arith
reindex-generation lock (some root) w =
    omega (arith, enqueue-generation (scan_request root full none true) (Scan.clear_tier1 w))

run_picked-generation :
    (o : Option (Task × List Task)) (w : World)
    → (Moves.run_picked o w).root.generation ≡ w.root.generation
unfolding Moves.run_picked
run_picked-generation o w = ground arith

receive-generation : (w : World) → (Moves.receive_scan_done w).root.generation ≡ w.root.generation
unfolding Moves.receive_scan_done
receive-generation w = ground arith

-- A move raises the generation by two at most.
pub step-generation :
    (d : Discovery) (m : Move) (w : World)
    → (Moves.step d m w).root.generation ≤ w.root.generation + 2
unfolding Moves.step Scan.handle_initialize Scan.handle_change_root Scan.handle_reindex
    Scan.switch_workspace_root_for_opened_document Scan.spawn_jar_indexing
step-generation d (Moves.initialize lock c tx) w = omega (
  arith,
  apply_config-generation d c w,
  enqueue-generation (scan_request c.root (prioritized []) tx false) (Scan.apply_config d c w),
)
step-generation d (Moves.reindex lock) w = reindex-generation lock _ w
step-generation d (Moves.change_root lock root) w =
    let w' = record w { jar = Jar.clear_jar_index lock w.jar } in
    omega (
      arith,
      apply_config-generation d (Scan.root_config root) w',
      enqueue-generation (scan_request root full none true)
          (Scan.apply_config d (Scan.root_config root) w'),
    )
step-generation d (Moves.open_elsewhere lock root path) w = omega (
  arith,
  apply_config-generation d (Scan.root_config root) w,
  enqueue-generation (scan_request root (prioritized (paths_of path)) none true)
      (Scan.apply_config d (Scan.root_config root) w),
)
step-generation d Moves.scan_message w = omega (arith, receive-generation w)
step-generation d Moves.jar_message w = omega arith
step-generation d (Moves.run_scan i) w = omega (arith, run_picked-generation (pick i w.tasks) w)
step-generation d (Moves.run_jar before crawl indexed) w = omega arith
