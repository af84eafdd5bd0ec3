-- ===== src/Pipeline/Outcome.antt =====
-- What `_process` of src/mailflow/core/pipeline.py does, on every path through its error handlers.
use mailflow.Base.{ℕ, Text, none, [], ◌∷◌, ◌++◌, ◌≡◌, arith}
use mailflow.Exec.{Exec, Exc, Result, ok, err, continue, handle}
use mailflow.Core.Models.{RawMessage, Disposition, emitted, dropped, duplicate, dead_lettered}
use mailflow.Core.Report.{add_dead_letter, record_trace}
use mailflow.Ports.{DedupeStore, CursorStore}
use mailflow.Pipeline.Components.{Components, PipelineConfig}
use mailflow.Pipeline.World.{World}
use mailflow.Pipeline.Work.{notify, record_decision, new_trace, mark_done, do_work}
use mailflow.Pipeline.Effects.{emitted_keys, Counted, Settled, Worked, Outward, do_work-Worked}
use mailflow.Pipeline.Process.{
  quarantine, put_record, dead_letter, refresh, handle_auth_error, count_dead_letter,
}

module _ (C : Components) (D : DedupeStore) (K : CursorStore) (cfg : PipelineConfig) where
  abbrev pub W : Type 0
  W = World C D K

  -- Nothing is settled.
  pub record Idle (w w' : W) : Type 0 where
    pub dedupe : w'.dedupe ≡ w.dedupe
    pub cursors : w'.cursors ≡ w.cursors
    pub emitted : emitted_keys w'.emitted ≡ emitted_keys w.emitted
    pub counted : Counted none w.report w'.report

  -- The keys of the emitted events, after each outcome of a message that was claimed.
  abbrev pub Keys : Text → Disposition → W → W → Type 0
  Keys key emitted w w' = emitted_keys w'.emitted ≡ emitted_keys w.emitted ++ (key ∷ [])
  Keys key duplicate w w' = ⊥
  Keys key _ w w' = emitted_keys w'.emitted ≡ emitted_keys w.emitted

  abbrev pub Ended : Text → W → Result Disposition × W → Type 0
  Ended key w (ok d, w') = Settled C D K cfg key d w w' × Keys key d w w'
  Ended key w (err e, w') = Idle w w'

  pub do_work-Ended :
      (msg : RawMessage) (key : Text) (w : W) → Ended key w (do_work C D K cfg msg key w)
  do_work-Ended msg key w =
      weaken (do_work C D K cfg msg key w) (do_work-Worked C D K cfg msg key w)
    where
      weaken : (p : Result Disposition × W) → Worked C D K cfg key w p → Ended key w p
      weaken (ok emitted, w') h = (h.0, h.1.0)
      weaken (ok dropped, w') h = ground arith
      weaken (ok duplicate, w') h = absurd h.1
      weaken (ok dead_lettered, w') h = absurd h.1
      weaken (err e, w') h = ground arith

  pub dead_letter-Ended :
      (id : Text) (msg : RawMessage) (key reason : Text) (attempts : ℕ) (class_name : Text) (w : W)
      → Ended key w (dead_letter C D K cfg id msg key reason attempts class_name w)
  unfolding dead_letter quarantine put_record count_dead_letter mark_done record_decision notify
      new_trace record_trace add_dead_letter
  dead_letter-Ended id msg key reason attempts class_name w = ground arith

  Ended-Idle :
      (key : Text) (w w1 : W) (p : Result Disposition × W)
      → Idle w w1
      → Ended key w1 p
      → Ended key w p
  Ended-Idle key w w1 (ok emitted, w') e h = ground arith
  Ended-Idle key w w1 (ok dropped, w') e h = ground arith
  Ended-Idle key w w1 (ok duplicate, w') e h = absurd h.1
  Ended-Idle key w w1 (ok dead_lettered, w') e h = ground arith
  Ended-Idle key w w1 (err x, w') e h = ground arith

  Idle-Outward : (w w' : W) → Outward C D K cfg w w' → Idle w w'
  Idle-Outward w w' e = ground arith

  handle-Ended :
      (key : Text) (w : W) (p : Result Disposition × W) (h : Exc → Exec W Disposition)
      → Ended key w p
      → ((e : Exc) (w1 : W) → Ended key w1 (h e w1))
      → Ended key w (handle p h)
  handle-Ended key w (ok d, w1) h e he = e
  handle-Ended key w (err x, w1) h e he = Ended-Idle key w w1 (h x w1) e (he x w1)

  continue-Ended :
      {A : Type 0} (key : Text) (w : W) (p : Result A × W) (f : A → Exec W Disposition)
      → Idle w p.1
      → ((a : A) (w1 : W) → Ended key w1 (f a w1))
      → Ended key w (continue p f)
  continue-Ended key w (ok a, w1) f e hf = Ended-Idle key w w1 (f a w1) e (hf a w1)
  continue-Ended key w (err x, w1) f e hf = e

  refresh-Idle : (w : W) → Idle w (refresh C D K cfg w).1
  unfolding refresh
  refresh-Idle w = ground arith

  pub handle_auth_error-Ended :
      (id : Text) (msg : RawMessage) (key : Text) (e : Exc) (w : W)
      → Ended key w (handle_auth_error C D K cfg id msg key e w)
  unfolding handle_auth_error
  handle_auth_error-Ended id msg key e w =
      continue-Ended key w (refresh C D K cfg w) _ (refresh-Idle w) λ _ w1.
        handle-Ended key w1 (do_work C D K cfg msg key w1) _ (do_work-Ended msg key w1)
          λ x w2. dead_letter-Ended id msg key _ 1 e.class_name w2
