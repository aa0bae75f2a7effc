-- ===== src/Workspace/Jar.antt =====
-- The JAR pipeline: indexer/jar_phase.rs, `spawn_jar_indexing`, its background task and
-- `abandon_stale_jar_scan` of workspace/scan_handler.rs, `wait_for_jvm_sources_gate` of
-- indexer/jar.rs, and `clear_jar_index` of indexer.rs. The sidecar process and the file system
-- enter as arguments: what the crawl found, and what a `try_lock` of the sidecar saw.
pub mod Coalesce
use kmp_lsp.Base.{
  ℕ, zero, suc, ◌+◌, ◌-◌, ◌≡◌, ◌≢◌, refl, Bool, true, false, not, ◌&&◌, Option, none, some, List,
  [], ◌∷◌, ◌++◌, String, arith, ◌==◌, ltb, if◌then◌else◌, is_empty, length, ◌>>=◌,
}
use text.Mathlib.Text.{◌==◌ as str_eq}
use kmp_lsp.Workspace.Root.{FilePath}

pub data JarPhase : Type 0 where
  unavailable : JarPhase
  pending : JarPhase
  jar_in_progress : JarPhase
  jar_ready : ℕ → JarPhase
  failed : String → JarPhase

abbrev pub is_loading : JarPhase → Bool
is_loading pending = true
is_loading jar_in_progress = true
is_loading _ = false

-- `jar_sidecar.try_lock()`: another thread holds the lock, or the slot is empty, or it is free.
pub data TryLock : Type 0 where
  held empty_slot free : TryLock

-- What `index_compiled_jars_phase` returns. `paths` counts the JARs.
pub record CompiledJarsOutcome : Type 0 where
  pub paths : List FilePath
  pub gradle_count : ℕ
  pub compiled_total : ℕ
  pub sidecar_alive : Bool
  pub workspace_uses_gradle_cache : Bool

-- Where the `spawn_blocking` closure stands.
pub data Stage : Type 0 where
  spawned : Stage
  crawling : Stage
  at_sources : CompiledJarsOutcome → Stage

pub record JarTask : Type 0 where
  pub expected_gen : ℕ
  pub stage : Stage

-- `in_flight` is `jar_indexing_in_progress`, `jar_done` counts the messages to the actor,
-- `cache_invalidations` the calls of `invalidate_completion_cache`.
pub record Jar : Type 0 where
  pub in_flight : Bool
  pub phase : JarPhase
  pub phase_poisoned : Bool
  pub task : Option JarTask
  pub jar_done : ℕ
  pub jar_files : List String
  pub jar_definitions : List String
  pub jar_uri_to_defs : List String
  pub jar_symbol_packages : List String
  pub bare_names_dirty : Bool
  pub library_uris : List String
  pub cache_invalidations : ℕ

-- A write of `*phase` behind `if let Ok(mut phase) = jar_phase.lock()`.
unfoldable pub set_phase : JarPhase → Jar → Jar
set_phase p j = if j.phase_poisoned then j else record j { phase = p }

start_task : ℕ → Jar → Jar
unfolding set_phase
start_task generation j = record (set_phase jar_in_progress (record j { in_flight = true })) {
  task = some (record { expected_gen = generation; stage = spawned });
}

unfoldable pub spawn_jar_indexing : TryLock → ℕ → Jar → Jar
unfolding start_task
spawn_jar_indexing empty_slot generation j = j
spawn_jar_indexing held generation j = j
spawn_jar_indexing free generation j = if j.in_flight then j else start_task generation j

unfoldable pub abandon_stale_jar_scan : Jar → Jar
unfolding set_phase
abandon_stale_jar_scan j =
    let released = record j { in_flight = false; task = none } in
    let settled =
      if is_loading released.phase
      then set_phase (jar_ready (length released.jar_definitions)) released
      else released in
    record settled { jar_done = settled.jar_done + 1 }

-- One poll of the gate: `none` means that it sleeps and polls again, `some none` that the task is
-- superseded, `some (some v)` the verdict. The second read of the index comes after the drain.
unfoldable pub poll_jvm_sources_gate : Bool → Bool → Bool → Bool → Option (Option Bool)
poll_jvm_sources_gate generation_ok has_jvm is_scanning has_jvm_after =
    if not generation_ok
    then some none
    else if has_jvm
    then some (some true)
    else if not is_scanning
    then some (some has_jvm_after)
    else none

-- What the polls see, in order. `none` means that the polls ended with the gate still shut.
unfoldable pub wait_for_jvm_sources_gate : List (Bool × Bool × Bool × Bool) → Option (Option Bool)
unfolding poll_jvm_sources_gate
wait_for_jvm_sources_gate [] = none
wait_for_jvm_sources_gate ((ok, has_jvm, scanning, after) ∷ polls) =
    let rest = wait_for_jvm_sources_gate polls in
    elim (poll_jvm_sources_gate ok has_jvm scanning after) [ none ↦ rest | some r ↦ some r ]

abbrev contains : FilePath → List FilePath → Bool
contains p [] = false
contains p (q ∷ qs) = if str_eq p q then true else contains p qs

-- `if !paths.contains(&jar) { paths.push(jar) }` in a loop.
push_missing : List FilePath → List FilePath → List FilePath
push_missing [] paths = paths
push_missing (jar ∷ jars) paths =
    push_missing jars (if contains jar paths then paths else paths ++ jar ∷ [])

-- `sdk` and `r_classes` are what the two detectors find below a root.
unfoldable pub compiled_jar_paths_with_android_sdk :
    (FilePath → List FilePath)
    → (FilePath → List FilePath)
    → Option FilePath
    → Bool
    → List FilePath
    → List FilePath
unfolding push_missing
compiled_jar_paths_with_android_sdk sdk r_classes (some root) true gradle_paths =
    push_missing (r_classes root) (push_missing (sdk root) gradle_paths)
compiled_jar_paths_with_android_sdk sdk r_classes none true gradle_paths = gradle_paths
compiled_jar_paths_with_android_sdk sdk r_classes _ false gradle_paths = gradle_paths

-- The closure up to `index_compiled_jars_phase`.
unfoldable pub begin_crawl : ℕ → JarTask → Jar → Jar
unfolding abandon_stale_jar_scan
begin_crawl generation t j =
    if generation == t.expected_gen
    then record j { task = some (record t { stage = crawling }) }
    else abandon_stale_jar_scan j

-- The maps that `clear_jar_maps` empties before the manifest is built.
clear_jar_maps : Jar → Jar
clear_jar_maps j = record j {
  jar_files = [];
  jar_definitions = [];
  jar_uri_to_defs = [];
  jar_symbol_packages = [];
}

-- The check behind `index_compiled_jars_phase`.
after_manifest : ℕ → CompiledJarsOutcome → JarTask → Jar → Jar
unfolding abandon_stale_jar_scan
after_manifest generation found t j =
    if generation == t.expected_gen
    then record j { task = some (record t { stage = at_sources found }) }
    else abandon_stale_jar_scan j

-- The rest of `index_compiled_jars_phase` and the check after it. The gate's verdict `none` and a
-- generation that has moved at the manifest, `before`, are its two ways to return `None`; `after`
-- is what the caller's check reads.
unfoldable pub end_crawl : ℕ → ℕ → Option CompiledJarsOutcome → JarTask → Jar → Jar
unfolding abandon_stale_jar_scan clear_jar_maps after_manifest
end_crawl before after none t j = abandon_stale_jar_scan j
end_crawl before after (some found) t j =
    if before == t.expected_gen
    then after_manifest after found t (clear_jar_maps j)
    else abandon_stale_jar_scan j

finish : JarPhase → ℕ → Jar → Jar
unfolding set_phase
finish p invalidations j =
    let settled = set_phase p j in
    record settled {
      cache_invalidations = settled.cache_invalidations + invalidations;
      in_flight = false;
      task = none;
      jar_done = settled.jar_done + 1;
    }

-- The message of the failed phase, without the counts that it ends with.
abbrev pub sidecar_died : String
sidecar_died = "sidecar died mid-index; symbols partially loaded"

final_phase : CompiledJarsOutcome → ℕ → JarPhase
final_phase found sources_total =
    if not found.sidecar_alive && ltb 0 found.compiled_total
    then failed sidecar_died
    else jar_ready (sources_total + found.compiled_total)

-- From the sources JARs to the end. `indexed` is what `index_sources_jars` would count.
unfoldable pub end_sources : ℕ → ℕ → CompiledJarsOutcome → JarTask → Jar → Jar
unfolding abandon_stale_jar_scan finish final_phase
end_sources generation indexed found t j =
    let sources_total = if found.workspace_uses_gradle_cache then indexed else 0 in
    if is_empty found.paths && sources_total == 0
    then finish (jar_ready 0) 0 j
    else if generation == t.expected_gen
    then finish (final_phase found sources_total) 1 j
    else abandon_stale_jar_scan j

abbrev remove_all : List String → List String → List String
remove_all keys [] = []
remove_all keys (u ∷ us) =
    let rest = remove_all keys us in if contains u keys then rest else u ∷ rest

unfoldable pub clear_jar_index : TryLock → Jar → Jar
unfolding set_phase
clear_jar_index lock j =
    let cleared = record j {
      library_uris = remove_all j.jar_files j.library_uris;
      jar_files = [];
      jar_definitions = [];
      jar_uri_to_defs = [];
      bare_names_dirty = true;
    } in
    set_phase (elim lock [ held ↦ pending | empty_slot ↦ unavailable | free ↦ pending ]) cleared

run_stage : ℕ → ℕ → Option CompiledJarsOutcome → ℕ → JarTask → Stage → Jar → Jar
unfolding begin_crawl end_crawl end_sources
run_stage before after crawl indexed t spawned j = begin_crawl after t j
run_stage before after crawl indexed t crawling j = end_crawl before after crawl t j
run_stage before after crawl indexed t (at_sources found) j = end_sources after indexed found t j

run_task : ℕ → ℕ → Option CompiledJarsOutcome → ℕ → Option JarTask → Jar → Jar
unfolding run_stage
run_task before after crawl indexed none j = j
run_task before after crawl indexed (some t) j = run_stage before after crawl indexed t t.stage j

-- One advance of the background task, whatever its stage, with what its environment shows it.
unfoldable pub advance : ℕ → ℕ → Option CompiledJarsOutcome → ℕ → Jar → Jar
unfolding run_task
advance before after crawl indexed j = run_task before after crawl indexed j.task j

-- The actor reads a `jar_done` message; it only publishes diagnostics again.
unfoldable pub receive_jar_done : Jar → Jar
receive_jar_done j = record j { jar_done = j.jar_done - 1 }
