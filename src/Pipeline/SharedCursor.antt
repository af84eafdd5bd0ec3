-- ===== src/Pipeline/SharedCursor.antt =====
-- `_run_stream` of src/mailflow/core/pipeline.py over messages that all carry one cursor, as those do that the
-- Gmail provider makes of one history.
use mailflow.Base.{false, text_eq_iff, Option, none, some, List, [], ◌∷◌, ◌≡◌, arith}
use mailflow.Exec.{ok}
use mailflow.Core.Models.{RawMessage, StreamRef, stream_key, Cursor, Disposition}
use mailflow.Ports.{DedupeStore, CursorStore}
use mailflow.Pipeline.Components.{Components, PipelineConfig}
use mailflow.Pipeline.World.{World}
use mailflow.Pipeline.Process.{process}
use mailflow.Pipeline.Run.{count_fetched, commit, run_messages}
use mailflow.Pipeline.Loop.{outcomes, run_messages-Stepped}
use mailflow.Pipeline.LowWater.{
  Below, settled_prefix, commit_all, cursors-run_messages, get-commit_self,
}

-- All messages carry the cursor.
abbrev pub Shared : Cursor → List RawMessage → Type 0
Shared c [] = Unit
Shared c (m ∷ ms) = (m.cursor ≡ c) × Shared c ms

AllCursor : Cursor → List Cursor → Type 0
AllCursor c [] = Unit
AllCursor c (d ∷ ds) = (d ≡ c) × AllCursor c ds

prefix-AllCursor :
    (c : Cursor) (os : List (Option Disposition)) (ms : List RawMessage)
    → Shared c ms
    → AllCursor c (settled_prefix os ms)
unfolding settled_prefix AllCursor
prefix-AllCursor c [] ms h = tt
prefix-AllCursor c (o ∷ os) [] h = tt
prefix-AllCursor c (none ∷ os) (m ∷ ms) h = tt
prefix-AllCursor c (some d ∷ os) (m ∷ ms) h = (h.0, prefix-AllCursor c os ms h.1)

module _ (C : Components) (D : DedupeStore) (K : CursorStore) (cfg : PipelineConfig) where
  abbrev W : Type 0
  W = World C D K

  get-commit_again :
      (stream : StreamRef) (c : Cursor) (s : K.State)
      → K.get cfg.tenant stream s ≡ some c
      → K.get cfg.tenant stream (K.commit_if_ahead cfg.tenant stream c s).1 ≡ some c
  get-commit_again stream c s h = ground (
    arith,
    K.get-commit cfg.tenant stream c s cfg.tenant stream,
    text_eq_iff cfg.tenant cfg.tenant,
    text_eq_iff (stream_key stream) (stream_key stream),
    h,
  )

  commit_all-same :
      (stream : StreamRef) (c : Cursor) (ds : List Cursor) (s : K.State)
      → AllCursor c ds
      → K.get cfg.tenant stream s ≡ some c
      → K.get cfg.tenant stream (commit_all C D K cfg stream ds s) ≡ some c
  unfolding commit_all AllCursor
  commit_all-same stream c [] s a h = h
  commit_all-same stream c (d ∷ ds) s a h =
      commit_all-same stream c ds (K.commit_if_ahead cfg.tenant stream d s).1 a.1
        (rw a.0 (get-commit_again stream c s h))

  -- Where all messages of a stream carry one cursor, ahead of the bookmark, and the first of them is
  -- settled, the bookmark is that cursor after the loop, however the other messages end, be they
  -- left for a later run, and also where the loop raises: nothing of the stream is ahead of it.
  pub one_cursor_passes :
      (stream : StreamRef) (c : Cursor) (m : RawMessage) (rest : List RawMessage) (w w1 : W)
      (d : Disposition)
      → Shared c (m ∷ rest)
      → Below (K.get cfg.tenant stream w.cursors) c.order
      → process C D K cfg m (count_fetched C D K cfg w) ≡ (ok (some d), w1)
      → K.get cfg.tenant stream (run_messages C D K cfg stream false (m ∷ rest) w).1.cursors
        ≡ some c
  unfolding settled_prefix commit_all AllCursor
  one_cursor_passes stream c m rest w w1 d shared below q =
      rw
        (
          cursors-run_messages C D K cfg stream false (m ∷ rest) w,
          ((run_messages-Stepped C D K cfg stream false m rest w).settled d w1 q).1,
          shared.0,
        )
        (commit_all-same stream c
          (settled_prefix (outcomes C D K cfg stream false rest (commit C D K cfg stream c w1))
            rest)
          (K.commit_if_ahead cfg.tenant stream c w.cursors).1 (prefix-AllCursor c _ rest shared.1)
          (get-commit_self C D K cfg stream c w.cursors below))
