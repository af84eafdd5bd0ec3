-- ===== src/Graph/Runtime.antt =====
-- `GraphEventHubsRuntime.process_batch` of src/mailflow/adapters/graph/runtime.py. What the
-- parsers make of an event, or raise, is a parameter, as are the provider's inbox, the pipeline and the lifecycle
-- handler. A
-- checkpoint of an event hub is the place of an event in its partition: the last one that was written counts.
use mailflow.Base.{Bool, true, false, Option, none, some, List, [], ◌∷◌, ◌++◌, ◌≡◌, refl, arith}
use mathlib.Core.List.{append_assoc}
use mailflow.Exec.{Exec, Result, ok, err, pure, continue, ◌>>=◌, ◌>>◌}
use mailflow.Core.Report.{RunReport, all_terminal}

pub record Hub (X Event Note Lifecycle : Type 0) : Type 0 where
  pub notifications : Event → Result (List Note)
  pub lifecycles : Event → Result (List Lifecycle)
  pub submit : Note → Exec X (Unit {0})
  pub run_once : Exec X RunReport
  pub lifecycle_handler : Option (Lifecycle → Exec X (Unit {0}))

module _ {X Event Note Lifecycle : Type 0} (hub : Hub X Event Note Lifecycle) where
  -- The outside, and the events at which a checkpoint was written.
  pub record Batch : Type 0 where
    pub outside : X
    pub checkpoints : List Event

  unfoldable pub for_all : {A : Type 0} → (A → Exec X (Unit {0})) → List A → Exec X (Unit {0})
  for_all f [] = pure tt
  for_all f (a ∷ l) = f a >> for_all f l

  abbrev handle_lifecycles : Event → Option (Lifecycle → Exec X (Unit {0})) → Exec X (Unit {0})
  handle_lifecycles event none = pure tt
  handle_lifecycles event (some handler) = (λ x. (hub.lifecycles event, x)) >>= for_all handler

  -- Whether the event comes to its checkpoint.
  abbrev on_notes : Event → List Note → Exec X Bool
  on_notes event [] = handle_lifecycles event hub.lifecycle_handler >> pure true
  on_notes event (n ∷ notes) =
      for_all hub.submit (n ∷ notes) >> (hub.run_once >>= λ report. pure (all_terminal report))

  -- The body of the loop up to the checkpoint, and whether it comes to the checkpoint.
  unfoldable pub handle_hub_event : Event → Exec X Bool
  unfolding for_all
  handle_hub_event event x = continue (hub.notifications event, x) (on_notes event)

  abbrev checkpoint : Event → Bool → List Event → List Event
  checkpoint event true l = l ++ (event ∷ [])
  checkpoint event false l = l

  unfoldable pub process_batch : List Event → Exec Batch (Unit {0})
  process_batch [] s = (ok tt, s)
  process_batch (event ∷ events) s =
      let (r, x) = handle_hub_event event s.outside in
      elim r [
        | err e ↦ (err e, record s { outside = x })
        | ok reached ↦
            process_batch events
              (record { outside = x; checkpoints = checkpoint event reached s.checkpoints })
      ]

  -- The last checkpoint, which is where the hub goes on.
  abbrev pub resume_at : List Event → Option Event
  resume_at [] = none
  resume_at (e ∷ []) = some e
  resume_at (e ∷ f ∷ l) = resume_at (f ∷ l)

  resume_at-append : (l : List Event) (e : Event) → resume_at (l ++ (e ∷ [])) ≡ some e
  resume_at-append [] e = refl
  resume_at-append (d ∷ []) e = refl
  resume_at-append (d ∷ f ∷ l) e = resume_at-append (f ∷ l) e

  process_batch-append_one :
      (events : List Event) (event : Event) (reached : Bool) (s s1 : Batch) (x : X)
      → process_batch events s ≡ (ok tt, s1)
      → handle_hub_event event s1.outside ≡ (ok reached, x)
      → process_batch (events ++ (event ∷ [])) s
        ≡ (ok tt, record { outside = x; checkpoints = checkpoint event reached s1.checkpoints })
  unfolding process_batch
  process_batch-append_one [] event reached s s1 x p q = ground arith
  process_batch-append_one (e ∷ events) event reached s s1 x p q =
      step (handle_hub_event e s.outside) p
        (λ t h. process_batch-append_one events event reached t s1 x h q)
    where
      step :
          (r : Result Bool × X)
          → (elim r.0 as (λ _. Result (Unit {0}) × Batch) [
            | err x ↦ (err x, record s { outside = r.1 })
            | ok b ↦
                process_batch events
                  (record { outside = r.1; checkpoints = checkpoint e b s.checkpoints })
          ])
            ≡ (ok tt, s1)
          → ((t : Batch)
              → process_batch events t ≡ (ok tt, s1)
              → process_batch (events ++ (event ∷ [])) t ≡ (
                ok tt,
                record { outside = x; checkpoints = checkpoint event reached s1.checkpoints },
              ))
          → (elim r.0 as (λ _. Result (Unit {0}) × Batch) [
            | err x ↦ (err x, record s { outside = r.1 })
            | ok b ↦
                process_batch
                  (events ++ (event ∷ []))
                  (record { outside = r.1; checkpoints = checkpoint e b s.checkpoints })
          ])
            ≡ (ok tt, record { outside = x; checkpoints = checkpoint event reached s1.checkpoints })
      step (err z, y) h ih = cc
      step (ok b, y) h ih =
          ih (record { outside = y; checkpoints = checkpoint e b s.checkpoints }) h

  -- An event with notifications, which are submitted in one world, and for which the run that follows returns a
  -- report in another.
  pub record Run (event : Event) (w : X) (report : RunReport) (y : X) : Type 0 where
    pub note : Note
    pub notes : List Note
    pub parsed : hub.notifications event ≡ ok (note ∷ notes)
    pub between : X
    pub submitted : for_all hub.submit (note ∷ notes) w ≡ (ok tt, between)
    pub returned : hub.run_once between ≡ (ok report, y)

  Run-handled :
      (event : Event) (w : X) (report : RunReport) (y : X)
      → Run event w report y
      → handle_hub_event event w ≡ (ok (all_terminal report), y)
  unfolding handle_hub_event
  Run-handled event w report y r = rw (r.parsed, r.submitted, r.returned) refl

  -- An event that was held back is passed by the next one. After some events, let the run for one event leave a
  -- message, and the run for the next settle all of its own: then no checkpoint is written at the first, and one
  -- at the second, which is where the hub goes on, behind both.
  pub process_batch-resume_at :
      (before : List Event) (held next : Event) (s s1 : Batch) (left settled : RunReport) (x y : X)
      → process_batch before s ≡ (ok tt, s1)
      → Run held s1.outside left x
      → all_terminal left ≡ false
      → Run next x settled y
      → all_terminal settled ≡ true
      → (process_batch (before ++ (held ∷ next ∷ [])) s
          ≡ (ok tt, record { outside = y; checkpoints = s1.checkpoints ++ (next ∷ []) }))
        × (resume_at (process_batch (before ++ (held ∷ next ∷ [])) s).1.checkpoints ≡ some next)
  process_batch-resume_at before held next s s1 left settled x y p r a q b =
      (whole, rw (whole) (resume_at-append s1.checkpoints next))
    where
      first :
          process_batch (before ++ (held ∷ [])) s
          ≡ (ok tt, record { outside = x; checkpoints = s1.checkpoints })
      first =
          process_batch-append_one before held false s s1 x p
            (rw (← a) (Run-handled held s1.outside left x r))

      whole :
          process_batch (before ++ (held ∷ next ∷ [])) s
          ≡ (ok tt, record { outside = y; checkpoints = s1.checkpoints ++ (next ∷ []) })
      whole = rw (← append_assoc before (held ∷ []) (next ∷ [])) (
          process_batch-append_one (before ++ (held ∷ [])) next true s
            (record { outside = x; checkpoints = s1.checkpoints }) y first
            (rw (← b) (Run-handled next x settled y q)))
