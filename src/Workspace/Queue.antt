-- ===== src/Workspace/Queue.antt =====
-- workspace/scan_queue.rs: at most one pending scan and one in progress; the last request wins.
use kmp_lsp.Base.{ℕ, Bool, true, false, Option, none, some, List, if◌then◌else◌}
use kmp_lsp.Workspace.Root.{FilePath}

pub data ScanKind : Type 0 where
  prioritized : List FilePath → ScanKind
  full : ScanKind

-- A `oneshot::Sender` is the number of the request that waits for it.
pub record ScanArgs : Type 0 where
  pub root : FilePath
  pub kind : ScanKind
  pub completion_tx : Option ℕ
  pub expected_generation : ℕ
  pub reset_before_scan : Bool

pub record ScanQueue : Type 0 where
  pub pending : Option ScanArgs
  pub in_progress : Bool

unfoldable pub new : ScanQueue
new = record { pending = none; in_progress = false }

unfoldable pub is_in_progress : ScanQueue → Bool
is_in_progress q = q.in_progress

unfoldable pub request : ScanArgs → ScanQueue → ScanQueue
request args q = record q { pending = some args }

take_pending : Option ScanArgs → ScanQueue → ScanQueue × Option ScanArgs
take_pending none q = (q, none)
take_pending (some args) q = (record q { pending = none; in_progress = true }, some args)

unfoldable pub try_start : ScanQueue → ScanQueue × Option ScanArgs
unfolding take_pending
try_start q = if q.in_progress then (q, none) else take_pending q.pending q

unfoldable pub completed : ScanQueue → ScanQueue
completed q = record q { in_progress = false }
