-- ===== src/Emit/Stages.antt =====
-- src/mailflow/emit/stages.py: the stages between the pipeline and the application. A stage is the
-- application's own function on an email, on a state `X` of its own, and may raise.
use mailflow.Base.{Option, none, some, List, [], ◌∷◌, ◌++◌, ◌≡◌, refl}
use mailflow.Exec.{Exec, Result, ok, err, pure, continue}
use mailflow.Core.Models.{CleanEmail, EmailEvent}

-- What a stage returns: None or False, an email, or anything else.
pub data Answer : Type 0 where
  stop : Answer
  replace : CleanEmail → Answer
  pass : Answer

abbrev pub Stage : Type 0 → Type 0
Stage X = CleanEmail → Exec X Answer

-- What two nested emitters return, as one emitter would.
abbrev pub flatten : {B : Type 0} → Option (Option B) → Option B
flatten none = none
flatten (some o) = o

module _ {X : Type 0} where
  unfoldable pub run_stages : CleanEmail → List (Stage X) → Exec X (Option CleanEmail)
  run_stages email [] x = (ok (some email), x)
  run_stages email (f ∷ fs) x =
      let (r, x') = f email x in
      elim r [
        | err e ↦ (err e, x')
        | ok out ↦ elim out [
          | stop ↦ (ok none, x')
          | replace changed ↦ run_stages changed fs x'
          | pass ↦ run_stages email fs x'
        ]
      ]

  -- The rest of `emit`. A copy of the event with the same email is the event itself.
  abbrev pub forward :
      {B : Type 0} → (EmailEvent → Exec X B) → EmailEvent → Option CleanEmail → Exec X (Option B)
  forward inner event none x = (ok none, x)
  forward inner event (some email) x =
      continue (inner (record event { email = email }) x) (λ b. pure (some b))

  -- `StagesEmitter.emit`
  unfoldable pub emit :
      {B : Type 0} → (EmailEvent → Exec X B) → List (Stage X) → EmailEvent → Exec X (Option B)
  emit inner stages event x = continue (run_stages event.email stages x) (forward inner event)

  -- The stages after the first ones, on what these have kept.
  abbrev pub further : List (Stage X) → Option CleanEmail → Exec X (Option CleanEmail)
  further gs none x = (ok none, x)
  further gs (some email) x = run_stages email gs x

  run_stages-append :
      (email : CleanEmail) (fs gs : List (Stage X)) (x : X)
      → run_stages email (fs ++ gs) x ≡ continue (run_stages email fs x) (further gs)
  unfolding run_stages
  run_stages-append email [] gs x = refl
  run_stages-append email (f ∷ fs) gs x = step (f email x) (λ e y. run_stages-append e fs gs y)
    where
      step :
          (p : Result Answer × X)
          → ((e : CleanEmail) (y : X)
              → run_stages e (fs ++ gs) y ≡ continue (run_stages e fs y) (further gs))
          → (elim p.0 as (λ _. Result (Option CleanEmail) × X) [
            | err e ↦ (err e, p.1)
            | ok out ↦ elim out [
              | stop ↦ (ok none, p.1)
              | replace changed ↦ run_stages changed (fs ++ gs) p.1
              | pass ↦ run_stages email (fs ++ gs) p.1
            ]
          ])
            ≡ continue
                (elim p.0 as (λ _. Result (Option CleanEmail) × X) [
                  | err e ↦ (err e, p.1)
                  | ok out ↦ elim out [
                    | stop ↦ (ok none, p.1)
                    | replace changed ↦ run_stages changed fs p.1
                    | pass ↦ run_stages email fs p.1
                  ]
                ])
                (further gs)
      step (err e, y) ih = refl
      step (ok Answer.stop, y) ih = refl
      step (ok (Answer.replace changed), y) ih = ih changed y
      step (ok Answer.pass, y) ih = ih email y

  -- An emitter with stages around an emitter with more stages does what one emitter with all of them
  -- does: the inner emitter sees the same event, or none, and what a stage raises is raised.
  pub emit-append :
      {B : Type 0} (inner : EmailEvent → Exec X B) (fs gs : List (Stage X)) (event : EmailEvent)
      (x : X)
      → continue (emit (emit inner gs) fs event x) (λ o. pure (flatten o))
        ≡ emit inner (fs ++ gs) event x
  unfolding emit
  emit-append {B = B} inner fs gs event x =
      rw (run_stages-append event.email fs gs x) (kept (run_stages event.email fs x))
    where
      last :
          (p : Result (Option B) × X)
          → continue (continue p (λ b. pure (some b))) (λ o. pure (flatten o)) ≡ p
      last (ok b, y) = refl
      last (err e, y) = refl

      kept :
          (p : Result (Option CleanEmail) × X)
          → continue
              (continue p
                (forward (λ ev y. continue (run_stages ev.email gs y) (forward inner ev)) event))
              (λ o. pure (flatten o))
            ≡ continue (continue p (further gs)) (forward inner event)
      kept (err e, y) = refl
      kept (ok none, y) = refl
      kept (ok (some email), y) = last (continue (run_stages email gs y) (forward inner event))
