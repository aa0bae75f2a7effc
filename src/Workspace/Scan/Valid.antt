-- ===== src/Workspace/Scan/Valid.antt =====
-- The invariant of the scan lifecycle of workspace/scan_handler.rs, and the handlers.
use kmp_lsp.Base.{
  ℕ, suc, ◌+◌, ◌≤◌, ◌<◌, ◌≡◌, Bool, true, false, Option, none, some, List, [], arith, All,
}
use kmp_lsp.Workspace.Root.{FilePath, u64_mod}
use kmp_lsp.Workspace.Queue.{ScanArgs, prioritized, full}
use kmp_lsp.Workspace.Phase.{Config, Discovery}
use kmp_lsp.Workspace.Jar
use kmp_lsp.Workspace.Jar.{Jar, TryLock}
use kmp_lsp.Workspace.Scan
use kmp_lsp.Workspace.Scan.{World, Task, scan_request, paths_of}
use kmp_lsp.Workspace.Scan.Busy.{busy, Current, Below, UpTo, Below-UpTo, UpTo-mono, busy-Current}

abbrev pub bit : Bool → ℕ
bit true = 1
bit false = 0

-- Where a request waits, it is the newest, and every live task is older. Where none waits, the task
-- that still scans is the newest.
abbrev pub Fresh : Option ScanArgs → ℕ → Type 0
Fresh none g = Unit
Fresh (some a) g = a.expected_generation ≡ g

abbrev pub NewestTask : Option ScanArgs → ℕ → Task → Type 0
NewestTask none g t = Current g t
NewestTask (some a) g t = Below g t

abbrev pub IdleEmpty : Bool → Option ScanArgs → Type 0
IdleEmpty true o = Unit
IdleEmpty false none = Unit
IdleEmpty false (some a) = ⊥

abbrev pub Newest : Option ScanArgs → ℕ → List Task → Type 0
Newest none g ts = All (Current g) ts
Newest (some a) g ts = (a.expected_generation ≡ g) × All (Below g) ts

pub Newest-parts :
    (o : Option ScanArgs) (g : ℕ) (ts : List Task)
    → Newest o g ts
    → Fresh o g × All (NewestTask o g) ts
Newest-parts none g ts h = (tt, h)
Newest-parts (some a) g ts h = h

pub Newest-join :
    (o : Option ScanArgs) (g : ℕ) (ts : List Task)
    → Fresh o g
    → All (NewestTask o g) ts
    → Newest o g ts
Newest-join none g ts f h = h
Newest-join (some a) g ts f h = (f, h)

-- What holds between two moves, but for the newest request.
pub record Counted (w : World) : Type 0 where
  pub one_scan : busy w.tasks + w.scan_done ≡ bit w.queue.in_progress
  pub idle_empty : IdleEmpty w.queue.in_progress w.queue.pending
  pub up_to : All (UpTo w.root.generation) w.tasks

pub record IsValid (w : World) : Type 0 where
  pub counted : Counted w
  pub newest : Newest w.queue.pending w.root.generation w.tasks

-- A request makes the state valid again, whatever the generation was: it bumps it if a scan runs.
enqueue-IsValid :
    (args : ScanArgs) (w : World)
    → w.root.generation + 1 < u64_mod
    → Counted w
    → IsValid (Scan.enqueue_scan args w)
unfolding Scan.enqueue_scan
enqueue-IsValid args w bound c = ground (
  arith,
  Below-UpTo w.root.generation w.tasks c.up_to,
  UpTo-mono w.root.generation (suc w.root.generation) w.tasks (omega arith) c.up_to,
  busy-Current w.root.generation w.tasks,
)

apply_config-Counted :
    (d : Discovery) (c : Config) (w : World)
    → w.root.generation + 1 < u64_mod
    → Counted w
    → Counted (Scan.apply_config d c w)
      × ((Scan.apply_config d c w).root.generation ≤ w.root.generation + 1)
unfolding Scan.apply_config
apply_config-Counted d c w bound k =
    ground
      (arith, UpTo-mono w.root.generation (suc w.root.generation) w.tasks (omega arith) k.up_to)

-- The JAR pipeline shares nothing with the scans but the generation, which it only reads.
pub with_jar-IsValid : (j : Jar) (w : World) → IsValid w → IsValid (record w { jar = j })
with_jar-IsValid j w v = record {
  counted = record {
    one_scan = v.counted.one_scan;
    idle_empty = v.counted.idle_empty;
    up_to = v.counted.up_to;
  };
  newest = v.newest;
}

spawn_jar-IsValid :
    (lock : TryLock) (w : World) → IsValid w → IsValid (Scan.spawn_jar_indexing lock w)
unfolding Scan.spawn_jar_indexing
spawn_jar-IsValid lock w v = with_jar-IsValid _ w v

configure-IsValid :
    (d : Discovery) (lock : TryLock) (c : Config) (args : ScanArgs) (w : World)
    → w.root.generation + 2 < u64_mod
    → Counted w
    → IsValid (Scan.spawn_jar_indexing lock (Scan.enqueue_scan args (Scan.apply_config d c w)))
configure-IsValid d lock c args w bound k =
    let (k', le) = apply_config-Counted d c w (omega arith) k in
    spawn_jar-IsValid lock _ (enqueue-IsValid args (Scan.apply_config d c w) (omega arith) k')

pub initialize-IsValid :
    (d : Discovery) (lock : TryLock) (c : Config) (tx : Option ℕ) (w : World)
    → w.root.generation + 2 < u64_mod
    → IsValid w
    → IsValid (Scan.handle_initialize d lock c tx w)
unfolding Scan.handle_initialize
initialize-IsValid d lock c tx w bound v =
    configure-IsValid d lock c (scan_request c.root (prioritized []) tx false) w bound v.counted

pub change_root-IsValid :
    (d : Discovery) (lock : TryLock) (root : FilePath) (w : World)
    → w.root.generation + 2 < u64_mod
    → IsValid w
    → IsValid (Scan.handle_change_root d lock root w)
unfolding Scan.handle_change_root
change_root-IsValid d lock root w bound v =
    configure-IsValid d lock (Scan.root_config root) (scan_request root full none true)
      (record w { jar = Jar.clear_jar_index lock w.jar }) bound
      (record {
        one_scan = v.counted.one_scan;
        idle_empty = v.counted.idle_empty;
        up_to = v.counted.up_to;
      })

pub open_elsewhere-IsValid :
    (d : Discovery) (lock : TryLock) (root : FilePath) (path : Option FilePath) (w : World)
    → w.root.generation + 2 < u64_mod
    → IsValid w
    → IsValid (Scan.switch_workspace_root_for_opened_document d lock root path w)
unfolding Scan.switch_workspace_root_for_opened_document
open_elsewhere-IsValid d lock root path w bound v =
    configure-IsValid d lock (Scan.root_config root)
      (scan_request root (prioritized (paths_of path)) none true) w bound v.counted

reindex_at-IsValid :
    (lock : TryLock) (root : Option FilePath) (w : World)
    → w.root.generation + 2 < u64_mod
    → IsValid w
    → IsValid (Scan.reindex_root lock root w)
unfolding Scan.reindex_root
reindex_at-IsValid lock none w bound v = v
reindex_at-IsValid lock (some root) w bound v = spawn_jar-IsValid lock _ (
    enqueue-IsValid (scan_request root full none true) (Scan.clear_tier1 w)
      (unfold Scan.clear_tier1 in omega arith)
      (unfold Scan.clear_tier1 in
        (record {
          one_scan = v.counted.one_scan;
          idle_empty = v.counted.idle_empty;
          up_to = v.counted.up_to;
        })))

pub reindex-IsValid :
    (lock : TryLock) (w : World)
    → w.root.generation + 2 < u64_mod
    → IsValid w
    → IsValid (Scan.handle_reindex lock w)
unfolding Scan.handle_reindex
reindex-IsValid lock w bound v = reindex_at-IsValid lock _ w bound v
