-- ===== src/Workspace/Scan/Superseded.antt =====
-- What a newer request does to the scans before it (`enqueue_scan`, `execute_scan`).
use kmp_lsp.Base.{ℕ, ◌+◌, ◌≡◌, refl, true, Option, none, some, List, [], ◌∷◌, arith, All}
use kmp_lsp.Workspace.Queue.{ScanArgs}
use kmp_lsp.Workspace.Phase.{Discovery}
use kmp_lsp.Workspace.Scan
use kmp_lsp.Workspace.Scan.{World, Task, waiting, indexing, reported}
use kmp_lsp.Workspace.Scan.Moves
use kmp_lsp.Workspace.Scan.Moves.{pick}
use kmp_lsp.Workspace.Scan.Busy.{Below, Picked, pick-Picked, busy, Current}
use kmp_lsp.Workspace.Scan.Valid.{IsValid, Newest}

Below-at :
    (o : Option ScanArgs) {a : ScanArgs} (g : ℕ) (ts : List Task)
    → o ≡ some a
    → Newest o g ts
    → All (Below g) ts
Below-at none g ts e h = absurd (cc)
Below-at (some a) g ts e h = h.1

Current-at :
    (o : Option ScanArgs) (g : ℕ) (ts : List Task) → o ≡ none → Newest o g ts → All (Current g) ts
Current-at none g ts e h = h
Current-at (some a) g ts e h = absurd (cc)

run-Below :
    (o : Option (Task × List Task)) (w : World)
    → Picked (Below w.root.generation) (busy w.tasks) o
    → ((Moves.run_picked o w).notified ≡ w.notified) × ((Moves.run_picked o w).resets ≡ w.resets)
unfolding Moves.run_picked
run-Below none w p = (refl, refl)
run-Below (some (t, rest)) w p = ground arith

-- In a valid world, while a request waits, no scan task that is still alive fires the notification
-- of its caller or resets the index, whichever of them runs.
pub pending-silences :
    (w : World) (a : ScanArgs) (i : ℕ)
    → IsValid w
    → w.queue.pending ≡ some a
    → ((Moves.run_picked (pick i w.tasks) w).notified ≡ w.notified)
      × ((Moves.run_picked (pick i w.tasks) w).resets ≡ w.resets)
pending-silences w a i v e =
    run-Below (pick i w.tasks) w
      (pick-Picked _ i w.tasks (Below-at w.queue.pending w.root.generation w.tasks e v.newest))

-- Two requests while a scan runs: when it completes, the second is started, stamped with the
-- generation that is then current, and the first is gone with its sender.
pub last_request_wins :
    (w : World) (a b : ScanArgs)
    → w.queue.in_progress ≡ true
    → let w' = Scan.enqueue_scan b (Scan.enqueue_scan a w) in
      ((Scan.on_scan_completed w').tasks
        ≡ record { args = record b { expected_generation = w'.root.generation }; point = waiting }
          ∷ w.tasks)
      × ((Scan.on_scan_completed w').queue.pending ≡ none)
      × ((Scan.on_scan_completed w').queue.in_progress ≡ true)
unfolding Scan.enqueue_scan Scan.on_scan_completed
last_request_wins w a b busy = ground arith

Current-of :
    (o : Option (Task × List Task)) (w : World) (t : Task) (rest : List Task)
    → o ≡ some (t, rest)
    → t.point ≡ waiting
    → Picked (Current w.root.generation) (busy w.tasks) o
    → t.args.expected_generation ≡ w.root.generation
Current-of none w t rest e starts p = absurd (cc)
Current-of (some (u, us)) w t rest e starts p = ground arith

run_three :
    (w : World) (t : Task) (rest : List Task) (tx : ℕ)
    → t.args.expected_generation ≡ w.root.generation
    → t.point ≡ waiting
    → t.args.completion_tx ≡ some tx
    → let w₁ = Moves.run_picked (some (t, rest)) w in
      let w₂ = Moves.run_picked (pick 0 w₁.tasks) w₁ in
      let w₃ = Moves.run_picked (pick 0 w₂.tasks) w₂ in
      (w₃.indexed ≡ t.args ∷ w.indexed)
      × (w₃.notified ≡ tx ∷ w.notified)
      × (w₃.scan_done ≡ w.scan_done + 1)
      × (w₃.tasks ≡ rest)
unfolding Moves.run_picked pick
run_three w t rest tx e starts sender = ground arith

-- In a valid world, where no request is pending, a scan task that has not begun and has a caller
-- is carried out: three stretches of it pass both checks of the generation, index its request,
-- report and notify its caller, and the task is gone.
pub newest_scan-runs :
    (d : Discovery) (w : World) (i tx : ℕ) (t : Task) (rest : List Task)
    → IsValid w
    → w.queue.pending ≡ none
    → pick i w.tasks ≡ some (t, rest)
    → t.point ≡ waiting
    → t.args.completion_tx ≡ some tx
    → let w' = Moves.run d (Moves.run_scan i ∷ Moves.run_scan 0 ∷ Moves.run_scan 0 ∷ []) w in
      (w'.indexed ≡ t.args ∷ w.indexed)
      × (w'.notified ≡ tx ∷ w.notified)
      × (w'.scan_done ≡ w.scan_done + 1)
      × (w'.tasks ≡ rest)
unfolding Moves.run
newest_scan-runs d w i tx t rest v idle picked starts sender = rw picked (
    run_three w t rest tx
      (Current-of (pick i w.tasks) w t rest picked starts (
        pick-Picked _ i w.tasks
          (Current-at w.queue.pending w.root.generation w.tasks idle v.newest)))
      starts sender)
