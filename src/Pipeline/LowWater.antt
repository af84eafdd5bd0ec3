-- ===== src/Pipeline/LowWater.antt =====
-- The low-water mark of `_run_stream` in src/mailflow/core/pipeline.py: which cursors it commits.
use mailflow.Base.{
  ℤ, ◌<ℤ◌, lt_ℤ-leb, Text, text_eq_iff, Bool, false, Option, none, some, List, [], ◌∷◌, ◌≡◌, refl,
  arith, if◌then◌else◌,
}
use mailflow.Exec.{Result, ok, err}
use mailflow.Core.Models.{
  RawMessage, StreamRef, stream_key, Cursor, Disposition, emitted, dropped, duplicate,
  dead_lettered,
}
use mailflow.Ports.{DedupeStore, CursorStore, ahead}
use mailflow.Pipeline.Components.{Components, PipelineConfig}
use mailflow.Pipeline.World.{World}
use mailflow.Pipeline.Process.{process, message_key}
use mailflow.Pipeline.Verdict.{Outcome, process-Outcome}
use mailflow.Pipeline.Run.{count_fetched, commit, run_messages}
use mailflow.Pipeline.Loop.{outcomes, run_messages-Stepped, loop_induction}

-- The cursors of the messages before the first that is not settled.
unfoldable pub settled_prefix : List (Option Disposition) → List RawMessage → List Cursor
settled_prefix [] msgs = []
settled_prefix (o ∷ os) [] = []
settled_prefix (none ∷ os) (m ∷ ms) = []
settled_prefix (some d ∷ os) (m ∷ ms) = m.cursor ∷ settled_prefix os ms

-- A bookmark lies before a place in the stream; no bookmark lies before every place.
abbrev pub Below : Option Cursor → ℤ → Type 0
Below none o = Unit
Below (some c) o = c.order <ℤ o

-- The messages come in the order of their cursors, all of them after the bookmark.
abbrev pub Above : Option Cursor → List RawMessage → Type 0
Above c [] = Unit
Above c (m ∷ ms) = Below c m.cursor.order × Above (some m.cursor) ms

-- The bookmark lies before every message that is not settled.
abbrev pub PendingAhead : Option Cursor → List (Option Disposition) → List RawMessage → Type 0
PendingAhead c [] ms = Unit
PendingAhead c (o ∷ os) [] = Unit
PendingAhead c (none ∷ os) (m ∷ ms) = Below c m.cursor.order × PendingAhead c os ms
PendingAhead c (some d ∷ os) (m ∷ ms) = PendingAhead c os ms

Below-trans : (c : Option Cursor) (d : Cursor) (o : ℤ) → Below c d.order → d.order <ℤ o → Below c o
Below-trans none d o h k = tt
Below-trans (some c) d o h k = omega arith

Above-PendingAhead :
    (c : Option Cursor) (d : Cursor) (os : List (Option Disposition)) (ms : List RawMessage)
    → Below c d.order
    → Above (some d) ms
    → PendingAhead c os ms
Above-PendingAhead c d [] ms h k = tt
Above-PendingAhead c d (o ∷ os) [] h k = tt
Above-PendingAhead c d (none ∷ os) (m ∷ ms) h k =
    let next = Below-trans c d m.cursor.order h k.0 in
    (next, Above-PendingAhead c m.cursor os ms next k.1)
Above-PendingAhead c d (some x ∷ os) (m ∷ ms) h k =
    Above-PendingAhead c m.cursor os ms (Below-trans c d m.cursor.order h k.0) k.1

ahead-Below : (c : Option Cursor) (d : Cursor) → Below c d.order → ahead c d ≡ d
ahead-Below none d h = refl
ahead-Below (some c) d h = rw (lt_ℤ-leb d.order c.order h)

module _ (C : Components) (D : DedupeStore) (K : CursorStore) (cfg : PipelineConfig) where
  abbrev pub W : Type 0
  W = World C D K

  Outcome-cursors :
      (key : Text) (w : W) (p : Result (Option Disposition) × W)
      → Outcome C D K cfg key w p
      → p.1.cursors ≡ w.cursors
  Outcome-cursors key w (ok none, w') h = h.5
  Outcome-cursors key w (ok (some emitted), w') h = h.3
  Outcome-cursors key w (ok (some dropped), w') h = h.3
  Outcome-cursors key w (ok (some duplicate), w') h = h.2
  Outcome-cursors key w (ok (some dead_lettered), w') h = h.3
  Outcome-cursors key w (err x, w') h = h.2

  unfoldable pub commit_all : StreamRef → List Cursor → K.State → K.State
  commit_all stream [] s = s
  commit_all stream (c ∷ cs) s = commit_all stream cs (K.commit_if_ahead cfg.tenant stream c s).1

  process_cursors :
      (m : RawMessage) (w : W)
      → (process C D K cfg m (count_fetched C D K cfg w)).1.cursors ≡ w.cursors
  unfolding count_fetched
  process_cursors m w =
      Outcome-cursors (message_key C D K cfg m) (count_fetched C D K cfg w)
        (process C D K cfg m (count_fetched C D K cfg w))
        (process-Outcome C D K cfg m (count_fetched C D K cfg w))

  -- After the loop the store holds what the commits of the contiguous settled prefix give, in their
  -- order, also where the loop raises; a loop that starts blocked commits nothing.
  abbrev CommitsPrefix : StreamRef → Bool → List RawMessage → W → Type 0
  CommitsPrefix stream blocked msgs w = (run_messages C D K cfg stream blocked msgs w).1.cursors ≡ (
      if blocked
      then w.cursors
      else commit_all stream (settled_prefix (outcomes C D K cfg stream blocked msgs w) msgs)
          w.cursors)

  pub cursors-run_messages :
      (stream : StreamRef) (blocked : Bool) (msgs : List RawMessage) (w : W)
      → (run_messages C D K cfg stream blocked msgs w).1.cursors ≡ (
          if blocked
          then w.cursors
          else commit_all stream
              (settled_prefix (outcomes C D K cfg stream blocked msgs w) msgs)
              w.cursors)
  unfolding settled_prefix commit_all commit run_messages outcomes
  cursors-run_messages stream blocked msgs w =
      loop_induction C D K cfg stream (CommitsPrefix stream) (λ b v. ground arith)
        (λ b m l v v1 q ih.
          ground
            (arith, (run_messages-Stepped C D K cfg stream b m l v).left v1 q, process_cursors m v))
        (λ b m l v d v1 q ih. ground (
          arith,
          (run_messages-Stepped C D K cfg stream b m l v).settled d v1 q,
          process_cursors m v,
        ))
        (λ b m l v x v1 q. ground (
          arith,
          (run_messages-Stepped C D K cfg stream b m l v).raised x v1 q,
          process_cursors m v,
        ))
        blocked msgs w

  pub get-commit_self :
      (stream : StreamRef) (c : Cursor) (s : K.State)
      → Below (K.get cfg.tenant stream s) c.order
      → K.get cfg.tenant stream (K.commit_if_ahead cfg.tenant stream c s).1 ≡ some c
  get-commit_self stream c s h = ground (
    arith,
    K.get-commit cfg.tenant stream c s cfg.tenant stream,
    text_eq_iff cfg.tenant cfg.tenant,
    text_eq_iff (stream_key stream) (stream_key stream),
    ahead-Below (K.get cfg.tenant stream s) c h,
  )

  prefix_PendingAhead :
      (stream : StreamRef) (os : List (Option Disposition)) (ms : List RawMessage) (s : K.State)
      → Above (K.get cfg.tenant stream s) ms
      → PendingAhead (K.get cfg.tenant stream (commit_all stream (settled_prefix os ms) s)) os ms
  unfolding commit_all settled_prefix
  prefix_PendingAhead stream [] ms s h = tt
  prefix_PendingAhead stream (o ∷ os) [] s h = tt
  prefix_PendingAhead stream (none ∷ os) (m ∷ ms) s h =
      (h.0, Above-PendingAhead (K.get cfg.tenant stream s) m.cursor os ms h.0 h.1)
  prefix_PendingAhead stream (some d ∷ os) (m ∷ ms) s h =
      prefix_PendingAhead stream os ms (K.commit_if_ahead cfg.tenant stream m.cursor s).1
        (rw (get-commit_self stream m.cursor s h.0) h.1)

  -- Where a provider yields messages in the order of their cursors, all of them after the bookmark
  -- that the stream had, the bookmark that the stream has after the loop, returned or raised, lies
  -- before every message that was left for a later run: a provider that starts after the bookmark
  -- yields it again.
  pub pending_refetched :
      (stream : StreamRef) (msgs : List RawMessage) (w : W)
      → Above (K.get cfg.tenant stream w.cursors) msgs
      → PendingAhead
          (K.get cfg.tenant stream (run_messages C D K cfg stream false msgs w).1.cursors)
          (outcomes C D K cfg stream false msgs w)
          msgs
  pending_refetched stream msgs w h =
      rw (cursors-run_messages stream false msgs w)
        (prefix_PendingAhead stream (outcomes C D K cfg stream false msgs w) msgs w.cursors h)
