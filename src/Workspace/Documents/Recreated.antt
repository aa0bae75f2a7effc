-- ===== src/Workspace/Documents/Recreated.antt =====
-- What a deletion leaves behind: remove_indexed_file of indexer.rs with index_content of
-- indexer/apply.rs.
use kmp_lsp.Base.{
  ℕ, ◌≡◌, refl, ap, ◌∙◌, true, Option, none, some, ==_iff, ==_refl, inl, inr, Bool-cases, if_keep,
}
use kmp_lsp.Text.{Text}
use kmp_lsp.Workspace.Documents.{
  Documents, Parser, cancel_pending_reindex, remove_live, clear_diagnostics, remove_indexed_file,
  handle_file_deleted, index_content, unchanged,
}
use kmp_lsp.Workspace.Documents.Handles.{put_self}

module _ (uri : Text) (p : Parser) where
  unchanged-some : (o : Option ℕ) (h : ℕ) → unchanged p o h ≡ true → o ≡ some h
  unchanged-some none h e = cc
  unchanged-some (some g) h e = ap some ((==_iff g h).0 e)

  index_content-hash :
      (text : Text) (d : Documents)
      → (index_content p uri text d).content_hashes uri ≡ some (p.hash_str text)
  unfolding index_content
  index_content-hash text d =
      elim (Bool-cases (unchanged p (d.content_hashes uri) (p.hash_str text))) [
        | inl e ↦ rw e (unchanged-some (d.content_hashes uri) (p.hash_str text) e)
        | inr e ↦ rw e (put_self uri (some (p.hash_str text)) d.content_hashes)
      ]

  -- The deletion takes the file and leaves its hash.
  deleted-leaves_hash :
      (d : Documents)
      → ((handle_file_deleted uri d).files uri ≡ none)
        × ((handle_file_deleted uri d).content_hashes ≡ d.content_hashes)
  unfolding handle_file_deleted remove_live remove_indexed_file cancel_pending_reindex
      clear_diagnostics
  deleted-leaves_hash d =
      if_keep (λ (e : Documents). (e.files uri ≡ none) × (e.content_hashes ≡ d.content_hashes))
        d.has_client _ _ (put_self uri none d.files, refl) (put_self uri none d.files, refl)

  index_content-again :
      (text : Text) (d : Documents)
      → d.content_hashes uri ≡ some (p.hash_str text)
      → index_content p uri text d ≡ d
  unfolding index_content
  index_content-again text d e = rw (e, ==_refl (p.hash_str text)) refl

  -- A file that was indexed, was deleted and is back with the same text is not in the index when
  -- that text has been indexed again: the deletion leaves its hash, which says that nothing
  -- changed. This is for every document, text and state.
  pub recreated-missing :
      (text : Text) (d : Documents)
      → (index_content p uri text (handle_file_deleted uri (index_content p uri text d))).files uri
        ≡ none
  recreated-missing text d =
      let e = index_content p uri text d in
      let (gone, same) = deleted-leaves_hash e in
      let known : (handle_file_deleted uri e).content_hashes uri ≡ some (p.hash_str text) =
        ap (λ m. m uri) same ∙ index_content-hash text d in
      ap (λ x. x.files uri) (index_content-again text (handle_file_deleted uri e) known) ∙ gone
