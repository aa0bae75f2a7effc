-- ===== src/Workspace/Scan/Ready.antt =====
-- The quiescence check of `Actor::run`: `is_ready`, and `on_became_ready` on its rising edge.
use kmp_lsp.Base.{
  ℕ, ◌+◌, ◌≡◌, Bool, true, not, ◌&&◌, none, List, [], ◌∷◌, arith, is_some, if◌then◌else◌,
}
use kmp_lsp.Workspace.Phase
use kmp_lsp.Workspace.Phase.{Discovery}
use kmp_lsp.Workspace.Scan
use kmp_lsp.Workspace.Scan.{World}
use kmp_lsp.Workspace.Scan.Moves
use kmp_lsp.Workspace.Scan.Moves.{Move}
use kmp_lsp.Workspace.Scan.Busy.{busy}
use kmp_lsp.Workspace.Scan.Valid.{IsValid}

unfoldable pub is_ready : World → Bool
unfolding Phase.get_ready Scan.is_scanning
is_ready w = is_some (Phase.get_ready w.state) && not (Scan.is_scanning w)

-- The loop's variable `was_ready`, how often `on_became_ready` ran, and how often the diagnostics
-- of the open files were published again.
pub record Watch : Type 0 where
  pub was_ready : Bool
  pub became_ready : ℕ
  pub republished : ℕ

-- The end of a round of the loop.
unfoldable pub end_round : World → Watch → Watch
unfolding is_ready
end_round w a =
    let rises = not a.was_ready && is_ready w in
    record {
      was_ready = is_ready w;
      became_ready = if rises then a.became_ready + 1 else a.became_ready;
      republished = if rises then a.republished + 1 else a.republished;
    }

-- What a move does to the loop's variables: a stretch of a spawned task is no round.
unfoldable pub after_move : Move → World → Watch → Watch
unfolding end_round
after_move (Moves.run_scan i) w a = a
after_move (Moves.run_jar before crawl indexed) w a = a
after_move Moves.jar_message w a = end_round w (record a { republished = a.republished + 1 })
after_move _ w a = end_round w a

unfoldable pub watch : Discovery → List Move → World → Watch → World × Watch
unfolding Moves.step after_move
watch d [] w a = (w, a)
watch d (m ∷ ms) w a = let w' = Moves.step d m w in watch d ms w' (after_move m w' a)

-- Where a valid world is ready, no scan task is before its report, no report is unread and no
-- request waits.
is_ready-quiet :
    (w : World)
    → IsValid w
    → is_ready w ≡ true
    → (busy w.tasks ≡ 0) × (w.scan_done ≡ 0) × (w.queue.pending ≡ none)
unfolding is_ready
is_ready-quiet w v h = ground arith
