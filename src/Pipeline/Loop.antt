-- ===== src/Pipeline/Loop.antt =====
-- The loop of `_run_stream` in src/mailflow/core/pipeline.py: its steps, and induction over them.
use mailflow.Base.{Bool, true, Option, none, some, List, [], ◌∷◌, ◌≡◌, refl, arith, if◌then◌else◌}
use mailflow.Exec.{Exc, Result, ok, err}
use mailflow.Core.Models.{RawMessage, StreamRef, Disposition}
use mailflow.Ports.{DedupeStore, CursorStore}
use mailflow.Pipeline.Components.{Components, PipelineConfig}
use mailflow.Pipeline.World.{World}
use mailflow.Pipeline.Process.{process}
use mailflow.Pipeline.Run.{count_fetched, commit, run_messages}

module _ (C : Components) (D : DedupeStore) (K : CursorStore) (cfg : PipelineConfig) where
  abbrev pub W : Type 0
  W = World C D K

  -- The outcomes of `_process` in the loop of `_run_stream`, up to a raise.
  unfoldable pub outcomes : StreamRef → Bool → List RawMessage → W → List (Option Disposition)
  outcomes stream blocked [] w = []
  outcomes stream blocked (msg ∷ rest) w =
      let (r, w') = process C D K cfg msg (count_fetched C D K cfg w) in
      elim r [
        | err e ↦ []
        | ok o ↦ elim o [
          | none ↦ none ∷ outcomes stream true rest w'
          | some d ↦
              some d
              ∷ outcomes stream blocked rest
                  (if blocked then w' else commit C D K cfg stream msg.cursor w')
        ]
      ]

  -- The loop's `match` on the outcome of a message.
  pub record Stepped (stream : StreamRef) (blocked : Bool) (msg : RawMessage)
      (rest : List RawMessage) (w : W) : Type 0 where
    pub left :
        (w1 : W)
        → process C D K cfg msg (count_fetched C D K cfg w) ≡ (ok none, w1)
        → (run_messages C D K cfg stream blocked (msg ∷ rest) w
            ≡ run_messages C D K cfg stream true rest w1)
          × (outcomes stream blocked (msg ∷ rest) w ≡ none ∷ outcomes stream true rest w1)
    pub settled :
        (d : Disposition) (w1 : W)
        → process C D K cfg msg (count_fetched C D K cfg w) ≡ (ok (some d), w1)
        → let w2 = if blocked then w1 else commit C D K cfg stream msg.cursor w1 in
          (run_messages C D K cfg stream blocked (msg ∷ rest) w
            ≡ run_messages C D K cfg stream blocked rest w2)
          × (outcomes stream blocked (msg ∷ rest) w ≡ some d ∷ outcomes stream blocked rest w2)
    pub raised :
        (x : Exc) (w1 : W)
        → process C D K cfg msg (count_fetched C D K cfg w) ≡ (err x, w1)
        → (run_messages C D K cfg stream blocked (msg ∷ rest) w ≡ (err x, w1))
          × (outcomes stream blocked (msg ∷ rest) w ≡ [])

  pub run_messages-Stepped :
      (stream : StreamRef) (blocked : Bool) (msg : RawMessage) (rest : List RawMessage) (w : W)
      → Stepped stream blocked msg rest w
  unfolding run_messages outcomes
  run_messages-Stepped stream blocked msg rest w = record {
    left = λ w1 q. (ground arith, ground arith);
    settled = λ d w1 q. (ground arith, ground arith);
    raised = λ x w1 q. (ground arith, ground arith);
  }

  -- The world in which the loop goes on after a message that is settled.
  abbrev pub after_settled : StreamRef → Bool → RawMessage → W → W
  after_settled stream blocked msg w1 =
      if blocked then w1 else commit C D K cfg stream msg.cursor w1

  module _ (stream : StreamRef) (P : Bool → List RawMessage → W → Type 0)
      (empty : (blocked : Bool) (w : W) → P blocked [] w)
      (left : (blocked : Bool) (msg : RawMessage) (rest : List RawMessage) (w w1 : W)
        → process C D K cfg msg (count_fetched C D K cfg w) ≡ (ok none, w1)
        → P true rest w1
        → P blocked (msg ∷ rest) w)
      (settled : (blocked : Bool) (msg : RawMessage) (rest : List RawMessage) (w : W)
          (d : Disposition) (w1 : W)
        → process C D K cfg msg (count_fetched C D K cfg w) ≡ (ok (some d), w1)
        → P blocked rest (after_settled stream blocked msg w1)
        → P blocked (msg ∷ rest) w)
      (raised : (blocked : Bool) (msg : RawMessage) (rest : List RawMessage) (w : W) (x : Exc)
          (w1 : W)
        → process C D K cfg msg (count_fetched C D K cfg w) ≡ (err x, w1)
        → P blocked (msg ∷ rest) w) where
    loop_step :
        (blocked : Bool) (msg : RawMessage) (rest : List RawMessage) (w : W)
        (p : Result (Option Disposition) × W)
        → process C D K cfg msg (count_fetched C D K cfg w) ≡ p
        → ((b : Bool) (w1 : W) → P b rest w1)
        → P blocked (msg ∷ rest) w
    loop_step blocked msg rest w (ok none, w1) q ih = left blocked msg rest w w1 q (ih true w1)
    loop_step blocked msg rest w (ok (some d), w1) q ih =
        settled blocked msg rest w d w1 q (ih blocked (after_settled stream blocked msg w1))
    loop_step blocked msg rest w (err x, w1) q ih = raised blocked msg rest w x w1 q

    -- Induction over the messages of a stream, by how `_process` ends for each.
    pub loop_induction : (blocked : Bool) (msgs : List RawMessage) (w : W) → P blocked msgs w
    loop_induction blocked [] w = empty blocked w
    loop_induction blocked (msg ∷ rest) w =
        loop_step blocked msg rest w (process C D K cfg msg (count_fetched C D K cfg w)) refl
          (λ b w1. loop_induction b rest w1)
