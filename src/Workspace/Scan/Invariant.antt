-- ===== src/Workspace/Scan/Invariant.antt =====
-- The invariant of the scan lifecycle under the moves of workspace/actor.rs.
use kmp_lsp.Base.{ℕ, suc, ◌+◌, ◌-◌, ◌*◌, ◌<◌, Option, none, some, List, [], ◌∷◌, arith, All, length}
use kmp_lsp.Workspace.Root.{u64_mod}
use kmp_lsp.Workspace.Phase.{Discovery}
use kmp_lsp.Workspace.Jar
use kmp_lsp.Workspace.Jar.{Jar, TryLock}
use kmp_lsp.Workspace.Scan
use kmp_lsp.Workspace.Scan.{World, Task, scan_request, paths_of}
use kmp_lsp.Workspace.Scan.Moves
use kmp_lsp.Workspace.Scan.Moves.{Move, pick}
use kmp_lsp.Workspace.Scan.Busy.{busy, UpTo, UpTo-mono, busy-Current, Picked, pick-Picked}
use kmp_lsp.Workspace.Scan.Valid.{
  Fresh, NewestTask, Counted, IsValid, with_jar-IsValid, initialize-IsValid, change_root-IsValid,
  open_elsewhere-IsValid, reindex-IsValid, Newest-parts, Newest-join,
}
use kmp_lsp.Workspace.Scan.Generations.{step-generation}

receive-IsValid : (w : World) → IsValid w → IsValid (Moves.receive_scan_done w)
unfolding Moves.receive_scan_done
receive-IsValid w v = ground (
  arith,
  busy-Current w.root.generation w.tasks,
  UpTo-mono w.root.generation (suc w.root.generation) w.tasks,
)

-- `IsValid` with the newest request as one condition on every task.
record ByTask (w : World) : Type 0 where
  counted : Counted w
  fresh : Fresh w.queue.pending w.root.generation
  newest : All (NewestTask w.queue.pending w.root.generation) w.tasks

-- One stretch of a task: `w` has the other tasks, `o` is the picked one with them.
run_picked-ByTask :
    (o : Option (Task × List Task)) (w : World)
    → ByTask w
    → Picked (UpTo w.root.generation) (busy w.tasks) o
    → Picked (NewestTask w.queue.pending w.root.generation) (busy w.tasks) o
    → ByTask (Moves.run_picked o w)
unfolding Moves.run_picked
run_picked-ByTask none w v p q = v
run_picked-ByTask (some (t, rest)) w v p q = ground arith

run_scan-IsValid : (i : ℕ) (w : World) → IsValid w → IsValid (Moves.run_picked (pick i w.tasks) w)
run_scan-IsValid i w v =
    let (fresh, newest) = Newest-parts w.queue.pending w.root.generation w.tasks v.newest in
    let r =
      run_picked-ByTask (pick i w.tasks) w
        (record { counted = v.counted; fresh = fresh; newest = newest })
        (pick-Picked _ i w.tasks v.counted.up_to) (pick-Picked _ i w.tasks newest) in
    record { counted = r.counted; newest = Newest-join _ _ _ r.fresh r.newest }

-- Every move of the actor and of the scheduler keeps the invariant, while the generation is below
-- its wrap-around.
pub step-IsValid :
    (d : Discovery) (m : Move) (w : World)
    → w.root.generation + 2 < u64_mod
    → IsValid w
    → IsValid (Moves.step d m w)
unfolding Moves.step
step-IsValid d (Moves.initialize lock c tx) w b v = initialize-IsValid d lock c tx w b v
step-IsValid d (Moves.reindex lock) w b v = reindex-IsValid lock w b v
step-IsValid d (Moves.change_root lock root) w b v = change_root-IsValid d lock root w b v
step-IsValid d (Moves.open_elsewhere lock root path) w b v =
    open_elsewhere-IsValid d lock root path w b v
step-IsValid d Moves.scan_message w b v = receive-IsValid w v
step-IsValid d (Moves.run_scan i) w b v = run_scan-IsValid i w v
step-IsValid d Moves.jar_message w b v = with_jar-IsValid (Jar.receive_jar_done w.jar) w v
step-IsValid d (Moves.run_jar before crawl indexed) w b v =
    with_jar-IsValid (Jar.advance before w.root.generation crawl indexed w.jar) w v

new-IsValid : (jar : Jar) → IsValid (Scan.new jar)
unfolding Scan.new
new-IsValid jar = ground arith

new-bound :
    (jar : Jar) (ms : List Move)
    → 2 * length ms < u64_mod - 2
    → (Scan.new jar).root.generation + 2 * length ms < u64_mod - 2
unfolding Scan.new
new-bound jar ms bound = omega arith

run_from-IsValid :
    (d : Discovery) (ms : List Move) (w : World)
    → w.root.generation + 2 * length ms < u64_mod - 2
    → IsValid w
    → IsValid (Moves.run d ms w)
unfolding Moves.run
run_from-IsValid d [] w b v = v
run_from-IsValid d (m ∷ ms) w b v =
    run_from-IsValid d ms (Moves.step d m w) (omega (arith, step-generation d m w))
      (step-IsValid d m w (omega arith) v)

-- After any moves of a fresh actor, fewer than 2^63 - 1: the scans that have not reported and the
-- reports that are not read make one exactly while the queue says that a scan runs; an idle queue
-- holds no request; a request that waits carries the current generation and every live task an
-- older one; and where none waits, the task that still scans carries the current generation.
pub run-IsValid :
    (d : Discovery) (jar : Jar) (ms : List Move)
    → 2 * length ms < u64_mod - 2
    → IsValid (Moves.run d ms (Scan.new jar))
run-IsValid d jar ms bound =
    run_from-IsValid d ms (Scan.new jar) (new-bound jar ms bound) (new-IsValid jar)
