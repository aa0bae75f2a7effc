-- ===== src/Workspace/Phase.antt =====
-- workspace/phase.rs and workspace/mod.rs: the lifecycle state, and the source paths of a
-- configuration. What the discovery functions of workspace_json.rs and util.rs read from the file
-- system is the record `Discovery`.
pub mod Sources
use kmp_lsp.Base.{
  ℕ, ◌≡◌, refl, Bool, true, false, ◌||◌, Option, none, some, List, [], ◌∷◌, ◌++◌, String, arith,
  if◌then◌else◌, is_empty,
}
use text.Mathlib.Text.{◌==◌}
use kmp_lsp.Workspace.Root.{FilePath}

pub record Config : Type 0 where
  pub root : FilePath
  pub explicit_source_paths : List String
  pub ignore_patterns : List String
  pub jar_paths : List String
  pub pin_workspace : Bool

-- `configured_source_paths` is `some` when workspace.json has the key, `default_sources` when the
-- directory ~/.kmp-lsp/sources exists.
pub record Discovery : Type 0 where
  pub json_source_paths : FilePath → List String
  pub build_layout_source_paths : FilePath → List String
  pub configured_source_paths : FilePath → Option (List String)
  pub default_sources : Option String
  pub android_sdk_source_paths : FilePath → List String
  pub module_dependencies : FilePath → List (FilePath × List String)

abbrev pub contains : String → List String → Bool
contains s [] = false
contains s (t ∷ ts) = s == t || contains s ts

-- The closure `push`: `seen` holds what `paths` holds.
unfoldable pub push : String → List String → List String
push s paths = if contains s paths then paths else paths ++ s ∷ []

unfoldable pub push_all : List String → List String → List String
push_all [] paths = paths
push_all (s ∷ ss) paths = push_all ss (push s paths)

push_default : Option String → List String → List String
unfolding push
push_default none paths = paths
push_default (some s) paths = push s paths

push_configured : Option (List String) → Option String → List String → List String
unfolding push_all push_default
push_configured (some ss) default paths = push_all ss paths
push_configured none default paths = push_default default paths

unfoldable pub resolve_sources : Discovery → Config → List String
unfolding push_all push_configured
resolve_sources d c =
    let json_paths = d.json_source_paths c.root in
    let explicit = push_all c.explicit_source_paths [] in
    let with_json = push_all json_paths explicit in
    let with_layout =
      if is_empty json_paths
      then push_all (d.build_layout_source_paths c.root) with_json
      else with_json in
    push_all (d.android_sdk_source_paths c.root)
      (push_configured (d.configured_source_paths c.root) d.default_sources with_layout)

pub record ReadyState : Type 0 where
  pub root : FilePath
  pub source_paths : List String

unfoldable pub from_config : Discovery → Config → ReadyState
from_config d c = record { root = c.root; source_paths = resolve_sources d c }

pub data State : Type 0 where
  uninitialized : State
  ready : ReadyState → State

unfoldable pub get_ready : State → Option ReadyState
get_ready (ready s) = some s
get_ready uninitialized = none

unfoldable pub set_state : ReadyState → State → State
set_state data_ s = ready data_
