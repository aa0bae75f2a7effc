-- ===== src/Workspace/Progress.antt =====
-- The progress of two streams of work: workspace/progress_tracker.rs and
-- workspace/progress_coordinator.rs.
use kmp_lsp.Base.{
  ℕ, zero, suc, ◌+◌, ◌-◌, ◌^◌, ◌<◌, ◌≡◌, refl, Bool, true, false, not, List, [], ◌∷◌, String, arith,
  ltb, ◌==◌, length,
}
use kmp_lsp.Workspace.Root.{fetch_add_one}

pub data Notification : Type 0 where
  begin end : String → Notification

-- `reporter` is the sequence of notifications that it was given, the last one first.
pub record ProgressTracker : Type 0 where
  pub reporter : List Notification
  pub workspace_done : Bool
  pub jar_done : Bool
  pub jar_in_progress : Bool

unfoldable pub new_tracker : ProgressTracker
new_tracker = record {
  reporter = [];
  workspace_done = false;
  jar_done = true;
  jar_in_progress = false;
}

-- `check_complete` reads both flags and does nothing.
abbrev pub check_complete : ProgressTracker → ProgressTracker
check_complete t = t

pub data Signal : Type 0 where
  begins scan_done : String → Signal
  jar_starts : Signal
  jar_ends : String → Signal

unfoldable pub signal : Signal → ProgressTracker → ProgressTracker
signal (begins message) t = record t {
  workspace_done = false;
  reporter = begin message ∷ t.reporter;
}
signal (scan_done message) t =
    check_complete (record t { workspace_done = true; reporter = end message ∷ t.reporter })
signal jar_starts t = record t { jar_in_progress = true; jar_done = false }
signal (jar_ends message) t =
    check_complete
      (record t { jar_done = true; jar_in_progress = false; reporter = end message ∷ t.reporter })

unfoldable pub signals : List Signal → ProgressTracker → ProgressTracker
signals [] t = t
signals (s ∷ ss) t = signals ss (signal s t)

abbrev pub ends : List Notification → ℕ
ends [] = 0
ends (begin m ∷ ns) = ends ns
ends (end m ∷ ns) = suc (ends ns)

abbrev pub completions : List Signal → ℕ
completions [] = 0
completions (begins m ∷ ss) = completions ss
completions (scan_done m ∷ ss) = suc (completions ss)
completions (jar_starts ∷ ss) = completions ss
completions (jar_ends m ∷ ss) = suc (completions ss)

-- ProgressCoordinator, by its one counter; `fetch_sub` wraps as `fetch_add` does, and returns the
-- value before.
abbrev pub fetch_sub_one : ℕ → ℕ
fetch_sub_one zero = 2 ^ 64 - 1
fetch_sub_one (suc n) = n

unfoldable pub jar_started : ℕ → ℕ
jar_started pending_jars = fetch_add_one pending_jars

unfoldable pub jar_done : ℕ → Bool × ℕ
jar_done pending_jars = (pending_jars == 1, fetch_sub_one pending_jars)

unfoldable pub has_pending_jars : ℕ → Bool
has_pending_jars pending_jars = ltb 0 pending_jars

pub data JarSignal : Type 0 where
  starts finishes : JarSignal

unfoldable pub jar_signals : List JarSignal → ℕ → ℕ
jar_signals [] n = n
jar_signals (starts ∷ es) n = jar_signals es (jar_started n)
jar_signals (finishes ∷ es) n = jar_signals es (jar_done n).1

-- A trace in which no task finishes that was not started, with the number of tasks at its end.
pub data Balanced : List JarSignal → ℕ → ℕ → Type 0 where
  at_end : {n : ℕ} → Balanced [] n n
  start_then : {n m : ℕ} {es : List JarSignal} → Balanced es (suc n) m → Balanced (starts ∷ es) n m
  finish_then :
      {n m : ℕ} {es : List JarSignal} → Balanced es n m → Balanced (finishes ∷ es) (suc n) m

-- While no task finishes that was not started, and fewer than 2^64 are counted, the counter is the
-- number of tasks that run.
pub jar_signals-Balanced :
    (es : List JarSignal) (n m : ℕ)
    → Balanced es n m
    → n + length es < 2 ^ 64
    → jar_signals es n ≡ m
unfolding jar_signals jar_started jar_done
jar_signals-Balanced [] n m at_end h = refl
jar_signals-Balanced (starts ∷ es) n m (start_then b) h =
    let step : fetch_add_one n ≡ suc n = omega (arith, h) in
    rw step (jar_signals-Balanced es (suc n) m b (omega (arith, h)))
jar_signals-Balanced (finishes ∷ es) (suc n) m (finish_then b) h =
    jar_signals-Balanced es n m b (omega (arith, h))
jar_signals-Balanced (finishes ∷ es) zero m b h = elim b [ ]

-- A task that finishes is told that it was the last exactly when none is pending behind it.
pub jar_done-last : (n : ℕ) → (jar_done (suc n)).0 ≡ not (has_pending_jars (jar_done (suc n)).1)
unfolding jar_done has_pending_jars
jar_done-last n = ground arith
