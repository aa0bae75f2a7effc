-- ===== src/Workspace/Opened.antt =====
-- The opening of a document: workspace/document_handler.rs. Its task is another than the one of an
-- edit: it asks neither whether the document is still open nor for a generation.
mod Tests
pub mod Roots
pub mod Stale
use kmp_lsp.Base.{
  ℕ, Bool, true, false, not, ◌&&◌, Option, none, some, List, [], ◌∷◌, if◌then◌else◌, any, head?,
  or_else, ◌>>=◌,
}
use kmp_lsp.Text.{Text, codes}
use kmp_lsp.Workspace.Documents.{Documents, Parser, set_live_lines, store_live_tree, index_content}

-- What is asked of the disk and of paths.
pub record Disk : Type 1 where
  pub FilePath : Type 0
  pub parents : FilePath → List FilePath
  pub exists : FilePath → Text → Bool
  pub canonicalize_or_clone : FilePath → FilePath
  pub starts_with : FilePath → FilePath → Bool
  pub path_eq : FilePath → FilePath → Bool

abbrev strong_build_markers : List Text
strong_build_markers =
    codes "build.gradle"
    ∷ codes "settings.gradle"
    ∷ codes "build.gradle.kts"
    ∷ codes "Cargo.toml"
    ∷ codes "pom.xml"
    ∷ codes "settings.gradle.kts"
    ∷ []

abbrev weak_build_markers : List Text
weak_build_markers = codes "Package.swift" ∷ []

module _ (k : Disk) where
  unfoldable pub has_any_marker : List Text → k.FilePath → Bool
  has_any_marker markers directory = any (k.exists directory) markers

  abbrev pub is_strong : k.FilePath → Bool
  is_strong directory = has_any_marker strong_build_markers directory

  abbrev pub is_weak : k.FilePath → Bool
  is_weak directory = has_any_marker weak_build_markers directory

  abbrev pub is_git : k.FilePath → Bool
  is_git directory = k.exists directory (codes ".git")

  abbrev pub or_this : (k.FilePath → Bool) → k.FilePath → Option k.FilePath → Option k.FilePath
  or_this test directory found = or_else found (if test directory then some directory else none)

  -- The loop, with the nearest strong and weak markers so far: the strong, the git and the weak root.
  abbrev pub scan_up :
      List k.FilePath
      → Option k.FilePath
      → Option k.FilePath
      → Option k.FilePath × Option k.FilePath × Option k.FilePath
  scan_up [] strong weak = (strong, none, weak)
  scan_up (d ∷ ds) strong weak =
      let further = scan_up ds (or_this is_strong d strong) (or_this is_weak d weak) in
      if is_git d then (or_this is_strong d strong, some d, weak) else further

  unfoldable pub auto_detect_workspace_root : k.FilePath → Option k.FilePath
  auto_detect_workspace_root path =
      let (strong, git, weak) = scan_up (k.parents path) none none in
      or_else strong (or_else git (or_else weak (head? (k.parents path))))

  unfoldable pub should_switch_workspace_root : Option k.FilePath → k.FilePath → k.FilePath → Bool
  should_switch_workspace_root none path candidate = true
  should_switch_workspace_root (some root) path candidate =
      not (k.starts_with (k.canonicalize_or_clone path) (k.canonicalize_or_clone root))
      && not (k.path_eq (k.canonicalize_or_clone candidate) (k.canonicalize_or_clone root))

  unfoldable pub detect_workspace_root_switch :
      Bool → Option k.FilePath → Option k.FilePath → Option k.FilePath
  detect_workspace_root_switch pinned root path =
      if pinned
      then none
      else path >>= λ p. auto_detect_workspace_root p >>= λ c.
          if should_switch_workspace_root root p c then some c else none

  abbrev outside : Option k.FilePath → Option k.FilePath → Bool
  outside (some path) (some root) =
      not (k.starts_with (k.canonicalize_or_clone path) (k.canonicalize_or_clone root))
  outside path root = false

  unfoldable pub is_outside_pinned_workspace_root :
      Bool → Option k.FilePath → Option k.FilePath → Bool
  is_outside_pinned_workspace_root pinned path root = if pinned then outside path root else false

pub data OpeningStage : Type 0 where
  waiting indexed : OpeningStage

-- A task of an opening; `diagnoses` unless the file is outside of the pinned root.
pub record Opening : Type 0 where
  pub uri : Text
  pub text : Text
  pub diagnoses : Bool
  pub stage : OpeningStage

pub record Opened : Type 0 where
  pub docs : Documents
  pub openings : List Opening

module _ (p : Parser) where
  unfoldable pub store_live_document_state : Text → Text → Documents → Documents
  store_live_document_state uri content d =
      store_live_tree p uri content (set_live_lines uri content d)

  -- The actor waits for the live state. Whether the file is an extracted source, and whether it is
  -- outside of the pinned root, is asked of the path; the switch of the root is the scheduler's.
  unfoldable pub handle_file_opened : Bool → Bool → Text → Text → Opened → Opened
  handle_file_opened extracted outside_root uri content o =
      let live = record o { docs = store_live_document_state uri content o.docs } in
      if extracted then live else record live {
        openings =
            record { uri = uri; text = content; diagnoses = not outside_root; stage = waiting }
            ∷ o.openings;
      }

  abbrev pub publish : Opening → Documents → Documents
  publish t d =
      if d.has_client
      then record d {
        published =
            record { of_uri = t.uri; of_text = some t.text; live_then = d.live_lines t.uri }
            ∷ d.published;
      }
      else d

  abbrev pub advance_opening : Opening → OpeningStage → Opened → Opened
  advance_opening t waiting o =
      let o' = record o { docs = index_content p t.uri t.text o.docs } in
      if t.diagnoses then record o' { openings = record t { stage = indexed } ∷ o.openings } else o'
  advance_opening t indexed o = record o { docs = publish t o.docs }

  abbrev pub run_first : List Opening → Documents → Opened
  run_first [] d = record { docs = d; openings = [] }
  run_first (t ∷ ts) d = advance_opening t t.stage (record { docs = d; openings = ts })

  -- A stretch of the opening that began last.
  unfoldable pub run_opening : Opened → Opened
  run_opening o = run_first o.openings o.docs
