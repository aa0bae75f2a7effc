-- ===== src/Workspace/Opened/Stale.antt =====
-- What an opening publishes when its document was edited meanwhile: workspace/document_handler.rs
-- with workspace/file_change_handler.rs.
use kmp_lsp.Base.{
  ◌≡◌, refl, ap, ◌∙◌, true, false, some, List, [], ◌∷◌, head?, if_keep, ℕ, Option, none,
}
use kmp_lsp.Text.{Text}
use kmp_lsp.Workspace.Documents.{
  Documents, Parser, index_content, handle_file_changed, bump, with_cell, set_live_lines,
  drain_file_changed_batch, spawn_live_tree_update, reschedule_debounced_reindex, store_live_tree,
}
use kmp_lsp.Workspace.Documents.Handles.{put_self}
use kmp_lsp.Workspace.Opened.{
  Opened, Opening, handle_file_opened, store_live_document_state, run_opening, waiting,
}

-- The edit of a document that is open, with the rest of the actor's state.
abbrev pub edit : Text → Text → Opened → Opened
edit uri text o = record o { docs = handle_file_changed uri (text ∷ []) o.docs }

module _ (p : Parser) where
  -- The indexing of a text changes neither what is live nor whether there is a client.
  index_content-live :
      (uri text : Text) (d : Documents)
      → ((index_content p uri text d).live_lines ≡ d.live_lines)
        × ((index_content p uri text d).has_client ≡ d.has_client)
  unfolding index_content
  index_content-live uri text d =
      if_keep (λ (e : Documents). (e.live_lines ≡ d.live_lines) × (e.has_client ≡ d.has_client)) _ _
        _ (refl, refl) (refl, refl)

  -- An opening that is run to its end publishes its own text, whatever is live by then.
  opening-publishes :
      (uri text : Text) (rest : List Opening) (d : Documents)
      → d.has_client ≡ true
      → head?
          (run_opening p (
            run_opening p (record {
              docs = d;
              openings =
                  record { uri = uri; text = text; diagnoses = true; stage = waiting } ∷ rest;
            }))).docs.published
        ≡ some (record { of_uri = uri; of_text = some text; live_then = d.live_lines uri })
  unfolding run_opening
  opening-publishes uri text rest d h =
      let (l, c) = index_content-live uri text d in
      let client : (index_content p uri text d).has_client ≡ true = c ∙ h in
      rw client (ap (λ m. some (record { of_uri = uri; of_text = some text; live_then = m uri })) l)

  edited-live :
      (uri text : Text) (d : Documents)
      → ((handle_file_changed uri (text ∷ []) d).live_lines uri ≡ some text)
        × ((handle_file_changed uri (text ∷ []) d).has_client ≡ d.has_client)
  unfolding handle_file_changed drain_file_changed_batch bump set_live_lines spawn_live_tree_update
      reschedule_debounced_reindex
  edited-live uri text d =
      (put_self uri (some text) (bump uri d).live_lines, client (d.diagnostic_generation uri))
    where
      client : (g : Option ℕ) → (with_cell uri g d).has_client ≡ d.has_client
      client none = refl
      client (some c) = refl

  -- A document that is edited while its opening is under way, in any state with a client: when the
  -- opening ends, it publishes the diagnostics of the text that was opened, although the text of
  -- the edit is live. No guard and no generation is asked.
  pub opened-stale :
      (uri old new : Text) (o : Opened)
      → o.docs.has_client ≡ true
      → head?
          (run_opening p (
            run_opening p
              (edit uri new (handle_file_opened p false false uri old o)))).docs.published
        ≡ some (record { of_uri = uri; of_text = some old; live_then = some new })
  unfolding handle_file_opened store_live_document_state set_live_lines store_live_tree
  opened-stale uri old new o h =
      let d = store_live_document_state p uri old o.docs in
      let (l, c) = edited-live uri new d in
      opening-publishes uri old o.openings (handle_file_changed uri (new ∷ []) d) (c ∙ h)
      ∙ ap (λ t. some (record { of_uri = uri; of_text = some old; live_then = t })) l
