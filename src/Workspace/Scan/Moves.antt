-- ===== src/Workspace/Scan/Moves.antt =====
-- The actor's loop and the scheduler of workspace/actor.rs as moves on a `World`: an event, a
-- `scan_done` or `jar_done` message, one stretch of the i-th scan task, or one stretch of the JAR task.
use kmp_lsp.Base.{ℕ, zero, suc, ◌-◌, Option, none, some, List, [], ◌∷◌, ltb, if◌then◌else◌}
use kmp_lsp.Workspace.Root.{FilePath}
use kmp_lsp.Workspace.Phase.{Config, Discovery}
use kmp_lsp.Workspace.Jar
use kmp_lsp.Workspace.Jar.{Jar, TryLock, CompiledJarsOutcome}
use kmp_lsp.Workspace.Scan
use kmp_lsp.Workspace.Scan.{World, Task}

pub data Move : Type 0 where
  initialize : TryLock → Config → Option ℕ → Move
  reindex : TryLock → Move
  change_root : TryLock → FilePath → Move
  open_elsewhere : TryLock → FilePath → Option FilePath → Move
  scan_message : Move
  jar_message : Move
  run_scan : ℕ → Move
  run_jar : ℕ → Option CompiledJarsOutcome → ℕ → Move

abbrev pub put_back : Task → Option (Task × List Task) → Option (Task × List Task)
put_back t none = none
put_back t (some (u, us)) = some (u, t ∷ us)

-- The i-th task, and the others.
unfoldable pub pick : ℕ → List Task → Option (Task × List Task)
pick i [] = none
pick zero (t ∷ ts) = some (t, ts)
pick (suc i) (t ∷ ts) = put_back t (pick i ts)

unfoldable pub run_picked : Option (Task × List Task) → World → World
unfolding Scan.run_task
run_picked none w = w
run_picked (some (t, rest)) w = Scan.run_task t (record w { tasks = rest })

unfoldable pub receive_scan_done : World → World
unfolding Scan.on_scan_completed
receive_scan_done w =
    if ltb 0 w.scan_done
    then Scan.on_scan_completed (record w { scan_done = w.scan_done - 1 })
    else w

module _ (d : Discovery) where
  unfoldable pub step : Move → World → World
  unfolding pick run_picked receive_scan_done Jar.advance Jar.receive_jar_done
  step (initialize lock c tx) w = Scan.handle_initialize d lock c tx w
  step (reindex lock) w = Scan.handle_reindex lock w
  step (change_root lock root) w = Scan.handle_change_root d lock root w
  step (open_elsewhere lock root path) w =
      Scan.switch_workspace_root_for_opened_document d lock root path w
  step scan_message w = receive_scan_done w
  step jar_message w = record w { jar = Jar.receive_jar_done w.jar }
  step (run_scan i) w = run_picked (pick i w.tasks) w
  step (run_jar before crawl indexed) w = record w {
    jar = Jar.advance before w.root.generation crawl indexed w.jar;
  }

  unfoldable pub run : List Move → World → World
  unfolding step
  run [] w = w
  run (m ∷ ms) w = run ms (step m w)
