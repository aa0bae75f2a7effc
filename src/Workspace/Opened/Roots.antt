-- ===== src/Workspace/Opened/Roots.antt =====
-- The root that an opened file suggests: auto_detect_workspace_root of
-- workspace/document_handler.rs.
use kmp_lsp.Base.{
  ◌≡◌, refl, ap, ◌∙◌, Bool, Option, none, some, List, [], ◌∷◌, inl, inr, Bool-cases, if◌then◌else◌,
  find, head?, or_else,
}
use kmp_lsp.Workspace.Opened.{
  Disk, is_strong, is_weak, is_git, or_this, scan_up, auto_detect_workspace_root,
}

module _ (k : Disk) where
  -- The directories up to the first with a `.git`, with it and without it.
  abbrev pub up_to_git : List k.FilePath → List k.FilePath
  up_to_git [] = []
  up_to_git (d ∷ ds) = let rest = up_to_git ds in if is_git k d then d ∷ [] else d ∷ rest

  abbrev pub before_git : List k.FilePath → List k.FilePath
  before_git [] = []
  before_git (d ∷ ds) = let rest = before_git ds in if is_git k d then [] else d ∷ rest

  or_else-or_this :
      (test : k.FilePath → Bool) (d : k.FilePath) (ds : List k.FilePath) (o : Option k.FilePath)
      → or_else (or_this k test d o) (find test ds) ≡ or_else o (find test (d ∷ ds))
  or_else-or_this test d ds (some x) = refl
  or_else-or_this test d ds none = elim (Bool-cases (test d)) [
    | inl e ↦ rw e refl
    | inr e ↦ rw e refl
  ]

  or_else-none : (o : Option k.FilePath) → o ≡ or_else o none
  or_else-none none = refl
  or_else-none (some x) = refl

  scan_up-find :
      (ds : List k.FilePath) (strong weak : Option k.FilePath)
      → scan_up k ds strong weak ≡ (
        or_else strong (find (is_strong k) (up_to_git ds)),
        find (is_git k) ds,
        or_else weak (find (is_weak k) (before_git ds)),
      )
  scan_up-find [] strong weak =
      ap (λ s. (s, none, weak)) (or_else-none strong)
      ∙ ap (λ w. (or_else strong none, none, w)) (or_else-none weak)
  scan_up-find (d ∷ ds) strong weak = elim (Bool-cases (is_git k d)) [
    | inl e ↦ rw e (ap (λ w. (or_this k (is_strong k) d strong, some d, w)) (or_else-none weak))
    | inr e ↦
        let ih =
          scan_up-find ds (or_this k (is_strong k) d strong) (or_this k (is_weak k) d weak) in
        rw e (
          ih
          ∙ ap
              (λ s. (
                s,
                find (is_git k) ds,
                or_else (or_this k (is_weak k) d weak) (find (is_weak k) (before_git ds)),
              ))
              (or_else-or_this (is_strong k) d (up_to_git ds) strong)
          ∙ ap
              (λ w. (or_else strong (find (is_strong k) (d ∷ up_to_git ds)), find (is_git k) ds, w))
              (or_else-or_this (is_weak k) d (before_git ds) weak))
  ]

  -- The root that a file suggests is the nearest directory above it with a build file, up to the
  -- first with a `.git`; without one, that first; without that, the nearest with a Swift package;
  -- and without any the file's own directory.
  pub auto_detect_workspace_root-nearest :
      (path : k.FilePath)
      → auto_detect_workspace_root k path
        ≡ or_else (find (is_strong k) (up_to_git (k.parents path))) (
            or_else
              (find (is_git k) (k.parents path))
              (or_else (find (is_weak k) (before_git (k.parents path))) (head? (k.parents path))))
  unfolding auto_detect_workspace_root
  auto_detect_workspace_root-nearest path =
      ap (λ r. or_else r.0 (or_else r.1 (or_else r.2 (head? (k.parents path)))))
        (scan_up-find (k.parents path) none none)
