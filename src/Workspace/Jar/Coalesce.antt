-- ===== src/Workspace/Jar/Coalesce.antt =====
-- The in-flight guard of the JAR crawl, its stretches, and a change of the root (Workspace/Jar).
use kmp_lsp.Base.{ℕ, ◌≡◌, ◌≢◌, Bool, true, false, not, ◌&&◌, Option, none, some, [], arith, is_some}
use kmp_lsp.Workspace.Jar
use kmp_lsp.Workspace.Jar.{
  Jar, JarTask, JarPhase, Stage, TryLock, CompiledJarsOutcome, is_loading, spawned, crawling,
  at_sources, pending, jar_in_progress, jar_ready, unavailable, failed,
}

abbrev is_crawling : JarPhase → Bool
is_crawling jar_in_progress = true
is_crawling pending = false
is_crawling unavailable = false
is_crawling (jar_ready n) = false
is_crawling (failed m) = false

-- The guard is up exactly while a task lives, and the phase says "in progress" only then, unless
-- its lock is poisoned.
pub record IsValid (j : Jar) : Type 0 where
  pub guarded : j.in_flight ≡ is_some j.task
  pub settled : (not j.phase_poisoned && not (is_some j.task) && is_crawling j.phase) ≡ false

-- The guard is up exactly while a task lives, and the phase says that a crawl is in progress only
-- then, unless its lock is poisoned. A spawn keeps this, whatever the lock of the sidecar shows,
-- and so do a stretch of the task, whatever it finds, and the clearing of a root change.
pub jar-IsValid :
    (lock : TryLock) (generation before indexed : ℕ) (crawl : Option CompiledJarsOutcome) (j : Jar)
    → IsValid j
    → IsValid (Jar.spawn_jar_indexing lock generation j)
      × IsValid (Jar.advance before generation crawl indexed j)
      × IsValid (Jar.clear_jar_index lock j)
unfolding Jar.spawn_jar_indexing Jar.advance Jar.clear_jar_index
jar-IsValid lock generation before indexed crawl j v = (ground arith, ground arith, ground arith)

abbrev pub is_early : Stage → Bool
is_early spawned = true
is_early crawling = true
is_early (at_sources found) = false

-- A root change while a crawl is in flight, at its start or in its compiled phase, with a
-- generation that has moved on, where the lock of the phase is not poisoned: the new spawn is
-- coalesced away, and the running task abandons at its next stretch, with an empty index, the
-- guard down and a phase that is no loading one. No task is left to crawl.
pub root_change-loses_crawl :
    (lock₁ lock₂ : TryLock) (generation before indexed : ℕ) (crawl : Option CompiledJarsOutcome)
    (t : JarTask) (j : Jar)
    → j.task ≡ some t
    → j.in_flight ≡ true
    → j.phase_poisoned ≡ false
    → is_early t.stage ≡ true
    → t.expected_gen ≢ generation
    → t.expected_gen ≢ before
    → let j' = Jar.spawn_jar_indexing lock₂ generation (Jar.clear_jar_index lock₁ j) in
      let j'' = Jar.advance before generation crawl indexed j' in
      (j'.task ≡ some t)
      × (j''.task ≡ none)
      × (j''.in_flight ≡ false)
      × (j''.jar_definitions ≡ [])
      × (is_loading j''.phase ≡ false)
unfolding Jar.spawn_jar_indexing Jar.advance Jar.clear_jar_index
root_change-loses_crawl lock₁ lock₂ generation before indexed crawl t j live busy ok early moved
      moved' =
    ground arith
