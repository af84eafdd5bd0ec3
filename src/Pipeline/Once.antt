-- ===== src/Pipeline/Once.antt =====
-- How often a key is emitted over whole runs of src/mailflow/core/pipeline.py.
use mailflow.Base.{
  ℕ, zero, suc, ◌+◌, ◌≤◌, Text, text_eq, text_eq_iff, Bool, true, false, Option, none, some, List,
  [], ◌∷◌, ◌++◌, ◌≡◌, refl, subst, arith, if◌then◌else◌,
}
use mailflow.Exec.{Exec, Exc, Result, ok, err, continue}
use mailflow.Core.Models.{
  RawMessage, StreamRef, Disposition, emitted, dropped, duplicate, dead_lettered,
}
use mailflow.Core.Report.{new_report}
use mailflow.Ports.{DedupeStore, CursorStore}
use mailflow.Pipeline.Components.{Components, PipelineConfig}
use mailflow.Pipeline.World.{World}
use mailflow.Pipeline.Work.{outside, notify}
use mailflow.Pipeline.Process.{process, message_key}
use mailflow.Pipeline.Effects.{emitted_keys}
use mailflow.Pipeline.Verdict.{Outcome, process-Outcome}
use mailflow.Pipeline.Run.{
  count_fetched, commit, run_messages, run_stream, run_streams, run_once, end_fetch, report_done,
}
use mailflow.Pipeline.Loop.{run_messages-Stepped, after_settled, loop_induction}

-- How often a key occurs.
unfoldable pub occurs : Text → List Text → ℕ
occurs k [] = 0
occurs k (j ∷ js) = (if text_eq j k then 1 else 0) + occurs k js

pub occurs-append_one :
    (k j : Text) (js : List Text)
    → occurs k (js ++ (j ∷ [])) ≡ occurs k js + (if text_eq j k then 1 else 0)
unfolding occurs
occurs-append_one k j [] = omega arith
occurs-append_one k j (i ∷ js) = omega (arith, occurs-append_one k j js)

module _ (C : Components) (D : DedupeStore) (K : CursorStore) (cfg : PipelineConfig) where
  abbrev pub W : Type 0
  W = World C D K

  -- No key was emitted twice, and none that is not done.
  pub record IsOnce (w : W) : Type 0 where
    pub once : (k : Text) → occurs k (emitted_keys w.emitted) ≤ (if D.done w.dedupe k then 1 else 0)

  -- The parts of a world that the invariant reads.
  IsOnce-same : (w w' : W) → w'.dedupe ≡ w.dedupe → w'.emitted ≡ w.emitted → IsOnce w → IsOnce w'
  IsOnce-same w w' d e h = record { once = λ k. ground (arith, h.once k) }

  IsOnce-Outcome :
      (key : Text) (w : W) (p : Result (Option Disposition) × W)
      → Outcome C D K cfg key w p
      → IsOnce w
      → IsOnce p.1
  IsOnce-Outcome key w (ok (some emitted), w') h i = record {
    once = λ k. ground (
      arith,
      i.once k,
      h.0,
      h.1 k,
      occurs-append_one k key (emitted_keys w.emitted),
      text_eq_iff key k,
      h.4,
    );
  }
  IsOnce-Outcome key w (ok (some dropped), w') h i = record {
    once = λ k. ground (arith, i.once k, h.1 k, h.4);
  }
  IsOnce-Outcome key w (ok (some duplicate), w') h i = record {
    once = λ k. ground (arith, i.once k, h.0 k, h.3);
  }
  IsOnce-Outcome key w (ok (some dead_lettered), w') h i = record {
    once = λ k. ground (arith, i.once k, h.1 k, h.4);
  }
  IsOnce-Outcome key w (ok none, w') h i = record {
    once = λ k. ground (arith, i.once k, h.1 k, h.6);
  }
  IsOnce-Outcome key w (err x, w') h i = record { once = λ k. ground (arith, i.once k, h.1 k, h.3) }

  pub process-IsOnce : (msg : RawMessage) (w : W) → IsOnce w → IsOnce (process C D K cfg msg w).1
  process-IsOnce msg w =
      IsOnce-Outcome (message_key C D K cfg msg) w (process C D K cfg msg w)
        (process-Outcome C D K cfg msg w)

  counted-IsOnce :
      (msg : RawMessage) (w : W)
      → IsOnce w
      → IsOnce (process C D K cfg msg (count_fetched C D K cfg w)).1
  unfolding count_fetched
  counted-IsOnce msg w i =
      process-IsOnce msg (count_fetched C D K cfg w)
        (IsOnce-same w (count_fetched C D K cfg w) refl refl i)

  after_settled-IsOnce :
      (stream : StreamRef) (b : Bool) (m : RawMessage) (w : W)
      → IsOnce w
      → IsOnce (after_settled C D K cfg stream b m w)
  unfolding commit
  after_settled-IsOnce stream true m w i = i
  after_settled-IsOnce stream false m w i =
      IsOnce-same w (commit C D K cfg stream m.cursor w) refl refl i

  run_messages-IsOnce :
      (stream : StreamRef) (blocked : Bool) (msgs : List RawMessage) (w : W)
      → IsOnce w
      → IsOnce (run_messages C D K cfg stream blocked msgs w).1
  unfolding run_messages
  run_messages-IsOnce stream blocked msgs w =
      loop_induction C D K cfg stream
        (λ b l v. IsOnce v → IsOnce (run_messages C D K cfg stream b l v).1) (λ b v i. i)
        (λ b m l v v1 q ih i. rw ((run_messages-Stepped C D K cfg stream b m l v).left v1 q).0 (
          ih
            (subst (λ (p : Result (Option Disposition) × W). IsOnce p.1) q (counted-IsOnce m v i))))
        (λ b m l v d v1 q ih i.
          rw ((run_messages-Stepped C D K cfg stream b m l v).settled d v1 q).0 (
            ih (
              after_settled-IsOnce stream b m v1 (
                subst (λ (p : Result (Option Disposition) × W). IsOnce p.1) q
                  (counted-IsOnce m v i)))))
        (λ b m l v x v1 q i.
          rw ((run_messages-Stepped C D K cfg stream b m l v).raised x v1 q).0
            (subst (λ (p : Result (Option Disposition) × W). IsOnce p.1) q (counted-IsOnce m v i)))
        blocked msgs w

  continue-IsOnce :
      {A B : Type 0} (p : Result A × W) (f : A → Exec W B)
      → IsOnce p.1
      → ((a : A) (w : W) → IsOnce w → IsOnce (f a w).1)
      → IsOnce (continue p f).1
  continue-IsOnce (ok a, w) f i hf = hf a w i
  continue-IsOnce (err x, w) f i hf = i

  end_fetch-IsOnce : (e : Option Exc) (w : W) → IsOnce w → IsOnce (end_fetch C D K cfg e w).1
  end_fetch-IsOnce none w i = i
  end_fetch-IsOnce (some e) w i = i

  run_stream-IsOnce : (s : StreamRef) (w : W) → IsOnce w → IsOnce (run_stream C D K cfg s w).1
  unfolding run_stream
  run_stream-IsOnce s w i =
      let (fetched, x) = C.fetch s (K.get cfg.tenant s w.cursors) w.outside in
      let w1 : W = record w { outside = x } in
      continue-IsOnce (run_messages C D K cfg s false fetched.0 w1) _
        (run_messages-IsOnce s false fetched.0 w1 (IsOnce-same w w1 refl refl i))
        λ _ w2 i2. end_fetch-IsOnce fetched.1 w2 i2

  run_streams-IsOnce :
      (ss : List StreamRef) (w : W) → IsOnce w → IsOnce (run_streams C D K cfg ss w).1
  unfolding run_streams
  run_streams-IsOnce [] w i = i
  run_streams-IsOnce (s ∷ ss) w i =
      continue-IsOnce (run_stream C D K cfg s w) _ (run_stream-IsOnce s w i)
        λ _ w1 i1. run_streams-IsOnce ss w1 i1

  outside-IsOnce :
      {A : Type 0} (m : Exec C.Outside A) (w : W) → IsOnce w → IsOnce (outside C D K cfg m w).1
  outside-IsOnce m w i = IsOnce-same w (outside C D K cfg m w).1 refl refl i

  notify-IsOnce :
      {T : Type 0} (o : Option (T → Exec C.Outside (Unit {0}))) (t : T) (w : W)
      → IsOnce w
      → IsOnce (notify C D K cfg o t w)
  unfolding notify
  notify-IsOnce none t w i = i
  notify-IsOnce (some f) t w i = IsOnce-same w (notify C D K cfg (some f) t w) refl refl i

  pub run_once-IsOnce : (w : W) → IsOnce w → IsOnce (run_once C D K cfg w).1
  unfolding run_once report_done
  run_once-IsOnce w i =
      let w0 : W = record w { report = new_report } in
      continue-IsOnce (outside C D K cfg C.connect w0) _
        (outside-IsOnce C.connect w0 (IsOnce-same w w0 refl refl i))
        λ _ w1 i1.
          continue-IsOnce (outside C D K cfg C.sync_streams w1) _
            (outside-IsOnce C.sync_streams w1 i1)
            λ ss w2 i2.
              continue-IsOnce (run_streams C D K cfg ss w2) _ (run_streams-IsOnce ss w2 i2)
                λ _ w3 i3. notify-IsOnce C.on_report w3.report w3 i3

  unfoldable pub run_times : ℕ → W → W
  run_times zero w = w
  run_times (suc n) w = run_times n (run_once C D K cfg w).1

  -- However many runs follow one another on one dedupe store whose operations return, as the in-memory one's do, each
  -- run returned or raised, no key is emitted twice, if before them none had been emitted twice and none that
  -- was not done, and where an emitter that raises has emitted nothing. (Where `mark_done` raises after an emission,
  -- as a store on disk may, `_process` gives the claim back and a later run emits the message again.)
  pub run_times_emit_once :
      (n : ℕ) (w : W) (k : Text) → IsOnce w → occurs k (emitted_keys (run_times n w).emitted) ≤ 1
  unfolding run_times
  run_times_emit_once zero w k i = ground (arith, i.once k)
  run_times_emit_once (suc n) w k i =
      run_times_emit_once n (run_once C D K cfg w).1 k (run_once-IsOnce w i)
