-- ===== src/Workspace/Root.antt =====
-- indexer/workspace_root.rs: the workspace path with its staleness generation, a `u64` that wraps.
use kmp_lsp.Base.{
  ℕ, ◌+◌, ◌%◌, ◌^◌, ◌≢◌, Bool, false, Option, none, some, String, arith, if◌then◌else◌,
}

abbrev pub FilePath : Type 0
FilePath = String

abbrev pub u64_mod : ℕ
u64_mod = 2 ^ 64

-- `fetch_add(1)` on an `AtomicU64`.
abbrev pub fetch_add_one : ℕ → ℕ
fetch_add_one n = (n + 1) % u64_mod

-- `poisoned`: a thread panicked while it held the path's lock.
pub record WorkspaceRoot : Type 0 where
  pub path : Option FilePath
  pub poisoned : Bool
  pub generation : ℕ

unfoldable pub new : WorkspaceRoot
new = record { path = none; poisoned = false; generation = 0 }

unfoldable pub set : FilePath → WorkspaceRoot → WorkspaceRoot
set root w =
    if w.poisoned then w else record w { path = some root; generation = fetch_add_one w.generation }

unfoldable pub get : WorkspaceRoot → Option FilePath
get w = if w.poisoned then none else w.path

unfoldable pub bump_generation : WorkspaceRoot → WorkspaceRoot
bump_generation w = record w { generation = fetch_add_one w.generation }

-- A bump is always seen: also the one that wraps.
pub fetch_add_one-ne : (n : ℕ) → fetch_add_one n ≢ n
fetch_add_one-ne n = omega arith
