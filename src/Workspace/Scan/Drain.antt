-- ===== src/Workspace/Scan/Drain.antt =====
-- The work that the scans have left (`execute_scan`, `on_scan_completed` of
-- workspace/scan_handler.rs).
use kmp_lsp.Base.{
  ℕ, zero, suc, ◌+◌, ◌<◌, ◌≡◌, ◌≢◌, refl, false, Option, none, some, List, [], ◌∷◌, arith, length,
}
use kmp_lsp.Workspace.Queue.{ScanArgs}
use kmp_lsp.Workspace.Phase.{Discovery}
use kmp_lsp.Workspace.Scan
use kmp_lsp.Workspace.Scan.{World, Task, Point, waiting, indexing, reported}
use kmp_lsp.Workspace.Scan.Moves
use kmp_lsp.Workspace.Scan.Moves.{pick, put_back}
use kmp_lsp.Workspace.Scan.Busy.{busy}
use kmp_lsp.Workspace.Scan.Valid.{IsValid}

abbrev point_work : Point → ℕ
point_work waiting = 5
point_work indexing = 4
point_work reported = 1

abbrev task_work : List Task → ℕ
task_work [] = 0
task_work (t ∷ ts) = point_work t.point + task_work ts

abbrev pending_work : Option ScanArgs → ℕ
pending_work none = 0
pending_work (some a) = 5

-- The scheduler moves that a world can still make.
abbrev pub work : World → ℕ
work w = task_work w.tasks + w.scan_done + pending_work w.queue.pending

abbrev Shares : ℕ → Option (Task × List Task) → Type 0
Shares n none = Unit
Shares n (some (t, rest)) = n ≡ point_work t.point + task_work rest

put_back-Shares :
    (n : ℕ) (u : Task) (o : Option (Task × List Task))
    → Shares n o
    → Shares (point_work u.point + n) (put_back u o)
put_back-Shares n u none h = tt
put_back-Shares n u (some (t, rest)) h = omega arith

pick-Shares : (i : ℕ) (ts : List Task) → Shares (task_work ts) (pick i ts)
unfolding pick
pick-Shares i [] = tt
pick-Shares zero (u ∷ us) = refl
pick-Shares (suc i) (u ∷ us) = put_back-Shares (task_work us) u (pick i us) (pick-Shares i us)

run_picked-work :
    (o : Option (Task × List Task)) (w : World)
    → Shares (task_work w.tasks) o
    → o ≢ none
    → work (Moves.run_picked o w) < work w
unfolding Moves.run_picked
run_picked-work none w h some_task = absurd (some_task refl)
run_picked-work (some (t, rest)) w h some_task = ground arith

pick-ne-none : (i : ℕ) (ts : List Task) → i < length ts → pick i ts ≢ none
unfolding pick
pick-ne-none i [] h = absurd (omega arith)
pick-ne-none zero (t ∷ ts) h = cc
pick-ne-none (suc i) (t ∷ ts) h = ground (arith, pick-ne-none i ts)

-- Every stretch of a scan task that exists lowers `work`, whichever task the scheduler picks.
run_scan-work :
    (d : Discovery) (w : World) (i : ℕ)
    → i < length w.tasks
    → work (Moves.step d (Moves.run_scan i) w) < work w
unfolding Moves.step
run_scan-work d w i h =
    run_picked-work (pick i w.tasks) w (pick-Shares i w.tasks) (pick-ne-none i w.tasks h)

-- Every `scan_done` message that the actor reads lowers `work`, also where it starts the next scan.
scan_message-work :
    (d : Discovery) (w : World)
    → 0 < w.scan_done
    → work (Moves.step d Moves.scan_message w) < work w
unfolding Moves.step
scan_message-work d w h = ground arith

no_work : (ts : List Task) → length ts ≡ 0 → busy ts ≡ 0
no_work [] h = refl
no_work (t ∷ ts) h = absurd (omega arith)

-- Where neither move is left, in a valid world, no scan runs and no request waits: a request is
-- never forgotten behind a finished scan.
pub at_rest :
    (w : World)
    → IsValid w
    → length w.tasks ≡ 0
    → w.scan_done ≡ 0
    → (Scan.is_scanning w ≡ false) × (w.queue.pending ≡ none)
unfolding Scan.is_scanning
at_rest w v no_tasks no_messages = ground (arith, no_work w.tasks)
