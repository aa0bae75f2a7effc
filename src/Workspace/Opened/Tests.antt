-- ===== src/Workspace/Opened/Tests.antt =====
-- Runs of openings.
use kmp_lsp.Base.{
  ◌≡◌, refl, true, false, some, none, ℕ, [], ◌∷◌, ◌==◌, ◌&&◌, ◌||◌, length, head?, find, or_else,
}
use kmp_lsp.Text.{Text, codes, text_eq}
use kmp_lsp.Workspace.Documents.{
  Parser, handle_file_deleted, index_content, set_live_lines, store_live_tree,
  cancel_pending_reindex, remove_live, remove_indexed_file, clear_diagnostics,
}
use kmp_lsp.Workspace.Opened.{
  Disk, Opened, auto_detect_workspace_root, is_strong, is_weak, is_git, has_any_marker,
  handle_file_opened, store_live_document_state, run_opening,
}
use kmp_lsp.Workspace.Opened.Roots.{up_to_git, before_git, auto_detect_workspace_root-nearest}
use kmp_lsp.Workspace.Opened.Stale.{edit, opened-stale}

-- `/w/app/src` in a repository at `/w`, with a build file in `/w/app` and another above the root.
abbrev disk : Disk
disk = record {
  FilePath = ℕ;
  parents = λ f. 3 ∷ 2 ∷ 1 ∷ 0 ∷ [];
  exists = λ d n.
      d == 1 && text_eq n (codes ".git")
      || d == 2 && text_eq n (codes "pom.xml")
      || d == 0 && text_eq n (codes "build.gradle");
  canonicalize_or_clone = λ f. f;
  starts_with = λ f g. false;
  path_eq = λ f g. f == g;
}

auto_detect_workspace_root-nearest_example :
    auto_detect_workspace_root disk 4
    ≡ or_else (find (is_strong disk) (up_to_git disk (disk.parents 4))) (
        or_else (find (is_git disk) (disk.parents 4)) (
          or_else
            (find (is_weak disk) (before_git disk (disk.parents 4)))
            (head? (disk.parents 4))))
auto_detect_workspace_root-nearest_example = auto_detect_workspace_root-nearest disk 4

build_file_in_app : auto_detect_workspace_root disk 4 ≡ some 2
unfolding auto_detect_workspace_root has_any_marker
build_file_in_app = refl

abbrev parser : Parser
parser = record { hash_str = length; parses_live = λ uri text. true }

abbrev fresh : Opened
fresh = record {
  docs = record {
    live_lines = λ u. none;
    live_trees = λ u. none;
    files = λ u. none;
    content_hashes = λ u. none;
    has_client = true;
    pending_reindex = λ u. none;
    diagnostic_generation = λ u. none;
    cells = λ c. 0;
    next_cell = 0;
    next_task = 0;
    tasks = [];
    jobs = [];
    finished = [];
    published = [];
  };
  openings = [];
}

abbrev a_kt : Text
a_kt = codes "file:///A.kt"

opened-stale_example :
    head?
      (run_opening parser (
        run_opening parser (
          edit a_kt
            (codes "val")
            (handle_file_opened parser false false a_kt (codes "va") fresh)))).docs.published
    ≡ some (record { of_uri = a_kt; of_text = some (codes "va"); live_then = some (codes "val") })
opened-stale_example = opened-stale parser a_kt (codes "va") (codes "val") fresh refl

-- A file that is deleted while its opening is under way comes back into the index.
deleted_and_back :
    (let o = handle_file_opened parser false false a_kt (codes "va") fresh in
      (run_opening parser (record o { docs = handle_file_deleted a_kt o.docs })).docs.files a_kt)
    ≡ some (codes "va")
unfolding handle_file_opened store_live_document_state set_live_lines store_live_tree run_opening
    handle_file_deleted cancel_pending_reindex remove_live remove_indexed_file clear_diagnostics
    index_content
deleted_and_back = refl
