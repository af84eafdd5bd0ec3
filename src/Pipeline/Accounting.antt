-- ===== src/Pipeline/Accounting.antt =====
-- The outcomes of the messages of a stream, and the counters of the report after them
-- (src/mailflow/core/pipeline.py, `_run_stream`; src/mailflow/core/observability.py, `RunReport`).
use mailflow.Base.{
  ℕ, ◌+◌, ◌≤◌, leb, Text, Bool, true, false, ◌&&◌, Option, none, some, is_some, List, [], ◌∷◌, ◌≡◌,
  subst, suc, arith, length,
}
use mailflow.Exec.{ok}
use mailflow.Core.Models.{
  RawMessage, StreamRef, Disposition, emitted, dropped, duplicate, dead_lettered,
}
use mailflow.Core.Report.{RunReport, terminal, all_terminal}
use mailflow.Ports.{DedupeStore, CursorStore}
use mailflow.Pipeline.Components.{Components, PipelineConfig}
use mailflow.Pipeline.World.{World}
use mailflow.Pipeline.Process.{process, message_key}
use mailflow.Pipeline.Effects.{Counted, hit}
use mailflow.Pipeline.Verdict.{Outcome, process-Outcome}
use mailflow.Pipeline.Run.{count_fetched, commit, run_messages}
use mailflow.Pipeline.Loop.{outcomes, run_messages-Stepped, after_settled, loop_induction}

-- How many outcomes have a disposition.
unfoldable pub hits : Disposition → List (Option Disposition) → ℕ
hits d [] = 0
hits d (o ∷ os) = hit d o + hits d os

unfoldable pub all_settled : List (Option Disposition) → Bool
all_settled [] = true
all_settled (o ∷ os) = is_some o && all_settled os

-- How many outcomes settle a message.
abbrev settled_count : List (Option Disposition) → ℕ
settled_count os = hits emitted os + hits dropped os + hits duplicate os + hits dead_lettered os

-- A report after the outcomes of the messages that were fetched.
pub record Tallied (n : ℕ) (os : List (Option Disposition)) (r r' : RunReport) : Type 0 where
  pub fetched : r'.fetched ≡ r.fetched + n
  pub seen : length os ≡ n
  pub emitted : r'.emitted ≡ r.emitted + hits Disposition.emitted os
  pub dropped : r'.dropped ≡ r.dropped + hits Disposition.dropped os
  pub duplicates : r'.duplicates ≡ r.duplicates + hits Disposition.duplicate os
  pub dead_lettered : r'.dead_lettered ≡ r.dead_lettered + hits Disposition.dead_lettered os

settled_count-le : (os : List (Option Disposition)) → settled_count os ≤ length os
unfolding hits
settled_count-le [] = omega arith
settled_count-le (none ∷ os) = omega (arith, settled_count-le os)
settled_count-le (some emitted ∷ os) = omega (arith, settled_count-le os)
settled_count-le (some dropped ∷ os) = omega (arith, settled_count-le os)
settled_count-le (some duplicate ∷ os) = omega (arith, settled_count-le os)
settled_count-le (some dead_lettered ∷ os) = omega (arith, settled_count-le os)

all_settled-count :
    (os : List (Option Disposition)) → all_settled os ≡ leb (length os) (settled_count os)
unfolding hits all_settled
all_settled-count [] = ground arith
all_settled-count (none ∷ os) = ground (arith, settled_count-le os)
all_settled-count (some emitted ∷ os) = ground (arith, all_settled-count os)
all_settled-count (some dropped ∷ os) = ground (arith, all_settled-count os)
all_settled-count (some duplicate ∷ os) = ground (arith, all_settled-count os)
all_settled-count (some dead_lettered ∷ os) = ground (arith, all_settled-count os)

module _ (C : Components) (D : DedupeStore) (K : CursorStore) (cfg : PipelineConfig) where
  abbrev pub W : Type 0
  W = World C D K

  Outcome-Counted :
      (key : Text) (w : W) (o : Option Disposition) (w' : W)
      → Outcome C D K cfg key w (ok o, w')
      → Counted o w.report w'.report
  Outcome-Counted key w none w' h = h.7
  Outcome-Counted key w (some emitted) w' h = h.5
  Outcome-Counted key w (some dropped) w' h = h.5
  Outcome-Counted key w (some duplicate) w' h = h.4
  Outcome-Counted key w (some dead_lettered) w' h = h.5

  empty_Tallied :
      (stream : StreamRef) (b : Bool) (v w' : W)
      → run_messages C D K cfg stream b [] v ≡ (ok tt, w')
      → Tallied 0 (outcomes C D K cfg stream b [] v) v.report w'.report
  unfolding run_messages outcomes hits
  empty_Tallied stream b v w' e = ground arith

  left_Tallied :
      (stream : StreamRef) (w' : W) (b : Bool) (m : RawMessage) (l : List RawMessage) (v v1 : W)
      → process C D K cfg m (count_fetched C D K cfg v) ≡ (ok none, v1)
      → (run_messages C D K cfg stream true l v1 ≡ (ok tt, w')
          → Tallied (length l) (outcomes C D K cfg stream true l v1) v1.report w'.report)
      → run_messages C D K cfg stream b (m ∷ l) v ≡ (ok tt, w')
      → Tallied (suc (length l)) (outcomes C D K cfg stream b (m ∷ l) v) v.report w'.report
  unfolding hits count_fetched
  left_Tallied stream w' b m l v v1 q ih e = ground (
    arith,
    (run_messages-Stepped C D K cfg stream b m l v).left v1 q,
    Outcome-Counted (message_key C D K cfg m) (count_fetched C D K cfg v) none v1 (
        subst (Outcome C D K cfg (message_key C D K cfg m) (count_fetched C D K cfg v)) q
          (process-Outcome C D K cfg m (count_fetched C D K cfg v))),
  )

  settled_Tallied :
      (stream : StreamRef) (w' : W) (b : Bool) (m : RawMessage) (l : List RawMessage) (v : W)
      (d : Disposition) (v1 : W)
      → process C D K cfg m (count_fetched C D K cfg v) ≡ (ok (some d), v1)
      → (run_messages C D K cfg stream b l (after_settled C D K cfg stream b m v1) ≡ (ok tt, w')
          → Tallied
              (length l)
              (outcomes C D K cfg stream b l (after_settled C D K cfg stream b m v1))
              (after_settled C D K cfg stream b m v1).report
              w'.report)
      → run_messages C D K cfg stream b (m ∷ l) v ≡ (ok tt, w')
      → Tallied (suc (length l)) (outcomes C D K cfg stream b (m ∷ l) v) v.report w'.report
  unfolding hits count_fetched commit
  settled_Tallied stream w' b m l v d v1 q ih e = ground (
    arith,
    (run_messages-Stepped C D K cfg stream b m l v).settled d v1 q,
    Outcome-Counted (message_key C D K cfg m) (count_fetched C D K cfg v) (some d) v1 (
        subst (Outcome C D K cfg (message_key C D K cfg m) (count_fetched C D K cfg v)) q
          (process-Outcome C D K cfg m (count_fetched C D K cfg v))),
  )

  -- Where the loop over the messages of a stream returns, the report counts every message as fetched,
  -- and every outcome in the counter of its disposition, once, and nowhere else.
  pub run_messages-Tallied :
      (stream : StreamRef) (blocked : Bool) (msgs : List RawMessage) (w w' : W)
      → run_messages C D K cfg stream blocked msgs w ≡ (ok tt, w')
      → Tallied (length msgs) (outcomes C D K cfg stream blocked msgs w) w.report w'.report
  run_messages-Tallied stream blocked msgs w w' =
      loop_induction C D K cfg stream
        (λ b l v.
          run_messages C D K cfg stream b l v ≡ (ok tt, w')
          → Tallied (length l) (outcomes C D K cfg stream b l v) v.report w'.report)
        (λ b v. empty_Tallied stream b v w') (left_Tallied stream w') (settled_Tallied stream w')
        (λ b m l v x v1 q e.
          ground (arith, (run_messages-Stepped C D K cfg stream b m l v).raised x v1 q))
        blocked msgs w

  -- `all_terminal` tells whether a message is pending: after the loop over the messages of a stream has
  -- returned, with as many fetched as settled in the report before it, the report is terminal exactly
  -- if every message of the stream was settled.
  pub all_terminal-run_messages :
      (stream : StreamRef) (msgs : List RawMessage) (w w' : W)
      → run_messages C D K cfg stream false msgs w ≡ (ok tt, w')
      → w.report.fetched ≡ terminal w.report
      → all_terminal w'.report ≡ all_settled (outcomes C D K cfg stream false msgs w)
  unfolding all_terminal
  all_terminal-run_messages stream msgs w w' e balanced =
      let t = run_messages-Tallied stream false msgs w w' e in
      let os = outcomes C D K cfg stream false msgs w in
      rw (all_settled-count os)
        (ground (arith, t.fetched, t.seen, t.emitted, t.dropped, t.duplicates, t.dead_lettered))
