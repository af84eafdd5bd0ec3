-- ===== src/Pipeline/Tagging.antt =====
-- What happens to a message that a filter has matched (src/mailflow/core/pipeline.py, `_do_work`), by the
-- setting `on_filtered`.
use mailflow.Base.{
  Text, ◌&&◌, Option, none, some, List, [], ◌∷◌, ◌++◌, ◌≡◌, refl, subst, arith, if◌then◌else◌,
}
use mailflow.Exec.{Exec, Result, ok, err, continue}
use mailflow.Core.Models.{
  RawMessage, Envelope, CleanEmail, Delivery, filtered, Disposition, emitted, dropped, Decision,
  EmailEvent, Relevance,
}
use mailflow.Core.Filtering.{FilterDecision}
use mailflow.Ports.{DedupeStore, CursorStore}
use mailflow.Filters.Chain.{run_chain}
use mailflow.Pipeline.Components.{Components, PipelineConfig, OnFiltered}
use mailflow.Pipeline.World.{World}
use mailflow.Pipeline.Work.{
  context, stamp, classify, extract, publish, deliver, drop_filtered, do_work, emit, new_event,
  record_strips, notify, is_drop, drops,
}

-- The tag of the last event that was emitted: its disposition, filter and reason.
abbrev pub last_tag : List EmailEvent → Option (Delivery × Text × Text)
last_tag [] = none
last_tag (e ∷ []) = some (e.email.disposition, e.email.matched_filter, e.email.filter_reason)
last_tag (e ∷ f ∷ es) = last_tag (f ∷ es)

last_tag-append :
    (es : List EmailEvent) (e : EmailEvent)
    → last_tag (es ++ (e ∷ []))
      ≡ some (e.email.disposition, e.email.matched_filter, e.email.filter_reason)
last_tag-append [] e = refl
last_tag-append (d ∷ []) e = refl
last_tag-append (d ∷ f ∷ es) e = last_tag-append (f ∷ es) e

module _ (C : Components) (D : DedupeStore) (K : CursorStore) (cfg : PipelineConfig) where
  abbrev pub W : Type 0
  W = World C D K

  -- A returned delivery is an emission with that tag.
  abbrev pub Tagged : Delivery × Text × Text → Result Disposition × W → Type 0
  Tagged t (ok d, w') = (d ≡ emitted) × (last_tag w'.emitted ≡ some t)
  Tagged t (err e, w') = Unit

  publish-Tagged :
      (msg : RawMessage) (key : Text) (r : Option Relevance) (email : CleanEmail) (w : W)
      → Tagged
          (email.disposition, email.matched_filter, email.filter_reason)
          (publish C D K cfg msg key r email w)
  unfolding publish emit record_strips notify new_event
  publish-Tagged msg key r email w =
      ground (arith, last_tag-append w.emitted (new_event C D K cfg msg key email))

  continue-Tagged :
      {A : Type 0} (t : Delivery × Text × Text) (p : Result A × W) (f : A → Exec W Disposition)
      → ((a : A) (w : W) → Tagged t (f a w))
      → Tagged t (continue p f)
  continue-Tagged t (ok a, w) f h = h a w
  continue-Tagged t (err e, w) f h = tt

  stamp_matched :
      (r : Option Relevance) (d : FilterDecision) (email : CleanEmail)
      → d.decision ≡ Decision.drop
      → (stamp r d email).disposition ≡ filtered
        × ((stamp r d email).matched_filter ≡ d.filter_name)
        × ((stamp r d email).filter_reason ≡ d.reason)
  unfolding stamp
  stamp_matched r d email h = ground arith

  deliver-Tagged :
      (msg : RawMessage) (key : Text) (env : Envelope) (d : FilterDecision) (w : W)
      → d.decision ≡ Decision.drop
      → Tagged (filtered, d.filter_name, d.reason) (deliver C D K cfg msg key env d w)
  unfolding deliver
  deliver-Tagged msg key env d w h =
      continue-Tagged (filtered, d.filter_name, d.reason) (classify C D K cfg env d w) _
        λ r w1.
          continue-Tagged (filtered, d.filter_name, d.reason) (extract C D K cfg msg env w1) _
            λ email w2.
              subst
                (λ (t : Delivery × Text × Text).
                  Tagged t (publish C D K cfg msg key r (stamp r d email) w2))
                (ground (arith, stamp_matched r d email h))
                (publish-Tagged msg key r (stamp r d email) w2)

  do_work_decided :
      (msg : RawMessage) (key : Text) (w : W) (env : Envelope) (x1 : C.Outside) (d : FilterDecision)
      (x2 : C.Outside)
      → C.parse_envelope msg cfg.tenant w.outside ≡ (ok env, x1)
      → run_chain C.filters env (context C D K cfg) x1 ≡ (ok d, x2)
      → do_work C D K cfg msg key w
        ≡ (if is_drop d.decision && drops cfg.on_filtered
              then drop_filtered C D K cfg msg key env d
              else deliver C D K cfg msg key env d)
            (record w { outside = x2 })
  unfolding do_work
  do_work_decided msg key w env x1 d x2 p q = rw p (rw q)

  abbrev pub Matched :
      OnFiltered → FilterDecision → List EmailEvent → Result Disposition × W → Type 0
  Matched OnFiltered.drop d events p = (p.0 ≡ ok dropped) × (p.1.emitted ≡ events)
  Matched OnFiltered.tag d events p = Tagged (filtered, d.filter_name, d.reason) p

  by_setting :
      (msg : RawMessage) (key : Text) (env : Envelope) (d : FilterDecision) (w : W) (k : Decision)
      (o : OnFiltered)
      → k ≡ Decision.drop
      → d.decision ≡ Decision.drop
      → Matched o d w.emitted (
          (if is_drop k && drops o
              then drop_filtered C D K cfg msg key env d
              else deliver C D K cfg msg key env d)
            w)
  unfolding drop_filtered notify
  by_setting msg key env d w Decision.drop OnFiltered.drop e h = (refl, ground arith)
  by_setting msg key env d w Decision.drop OnFiltered.tag e h = deliver-Tagged msg key env d w h
  by_setting msg key env d w Decision.keep o e h = cc
  by_setting msg key env d w Decision.uncertain o e h = cc

  -- A message that the chain matches, in a pipeline that drops, is dropped, and nothing is emitted. In
  -- one that tags it is never dropped: unless the work on it raises, it is emitted, and the event
  -- carries the disposition "filtered" with the name and the reason of the filter.
  pub do_work-Matched :
      (msg : RawMessage) (key : Text) (w : W) (env : Envelope) (x1 : C.Outside) (d : FilterDecision)
      (x2 : C.Outside)
      → C.parse_envelope msg cfg.tenant w.outside ≡ (ok env, x1)
      → run_chain C.filters env (context C D K cfg) x1 ≡ (ok d, x2)
      → d.decision ≡ Decision.drop
      → Matched cfg.on_filtered d w.emitted (do_work C D K cfg msg key w)
  do_work-Matched msg key w env x1 d x2 p q h =
      rw (do_work_decided msg key w env x1 d x2 p q)
        (by_setting msg key env d (record w { outside = x2 }) d.decision cfg.on_filtered h h)
