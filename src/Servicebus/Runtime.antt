-- ===== src/Servicebus/Runtime.antt =====
-- `ServiceBusRuntime.process_messages` of src/mailflow/adapters/servicebus/runtime.py. The provider's inbox, the
-- pipeline's run, the lifecycle handler and the receiver are parameters; the parsers of a message's body are
-- those of EventGrid and Graph.
use mailflow.Base.{
  subst, Bool, true, false, Option, none, some, List, [], ◌∷◌, ◌++◌, ◌≡◌, refl, ◌⊎◌, inl, inr, ap,
  sym, ◌∙◌, arith,
}
use mathlib.Core.List.{append_assoc, append-nil}
use mailflow.Exec.{Exec, Exc, Result, ok, err, pure, continue, ◌>>=◌, ◌>>◌}
use mailflow.Core.Report.{RunReport, all_terminal}

-- `notes` and `lifecycles` parse a message's body, and may raise.
pub record Queue (X Message Note Lifecycle : Type 0) : Type 0 where
  pub notes : Message → Result (List Note)
  pub lifecycles : Message → Result (List Lifecycle)
  pub submit : Note → Exec X (Unit {0})
  pub run_once : Exec X RunReport
  pub lifecycle_handler : Option (Lifecycle → Exec X (Unit {0}))
  pub complete : Message → Exec X (Unit {0})
  pub abandon : Message → Exec X (Unit {0})

pub data Ack : Type 0 where
  completed abandoned : Ack

module _ {X Message Note Lifecycle : Type 0} (queue : Queue X Message Note Lifecycle) where
  unfoldable pub for_all : {A : Type 0} → (A → Exec X (Unit {0})) → List A → Exec X (Unit {0})
  for_all f [] = pure tt
  for_all f (a ∷ l) = f a >> for_all f l

  abbrev on_lifecycles : Message → Option (Lifecycle → Exec X (Unit {0})) → Exec X (Unit {0})
  on_lifecycles message none = pure tt
  on_lifecycles message (some handler) = (λ x. (queue.lifecycles message, x)) >>= for_all handler

  -- Whether the message comes to its completion.
  abbrev on_notes : Message → List Note → Exec X Bool
  on_notes message [] = on_lifecycles message queue.lifecycle_handler >> pure true
  on_notes message (n ∷ notes) =
      for_all queue.submit (n ∷ notes) >> (queue.run_once >>= λ report. pure (all_terminal report))

  -- The body of the `try`, up to the call of `abandon`.
  unfoldable pub handle : Message → Exec X Bool
  unfolding for_all
  handle message x = continue (queue.notes message, x) (on_notes message)

  -- The world outside, and what the receiver was told, in order.
  pub record State : Type 0 where
    pub outside : X
    pub told : List (Ack × Message)

  abbrev pub noted : Ack → Message → Result (Unit {0}) × X → List (Ack × Message) → State
  noted ack message (ok u, x) told = record { outside = x; told = told ++ ((ack, message) ∷ []) }
  noted ack message (err e, x) told = record { outside = x; told = told }

  abbrev pub first_error : Exc → Result (Unit {0}) → Exc
  first_error e (ok u) = e
  first_error e (err z) = z

  -- The handler of the `try`: abandon, and raise again; what `abandon` raises comes first.
  unfoldable pub fail : Message → Exc → Exec State (Unit {0})
  fail message e s =
      let p = queue.abandon message s.outside in
      (err (first_error e p.0), noted abandoned message p s.told)

  unfoldable pub process_messages : List Message → Exec State (Unit {0})
  unfolding handle fail
  process_messages [] s = (ok tt, s)
  process_messages (message ∷ messages) s =
      let p = handle message s.outside in
      elim p.0 [
        | err e ↦ fail message e (record s { outside = p.1 })
        | ok done ↦ elim done [
          | true ↦
              let q = queue.complete message p.1 in
              continue (q.0, noted completed message q s.told) λ _. process_messages messages
          | false ↦
              let q = queue.abandon message p.1 in
              elim q.0 [
                | ok u ↦ process_messages messages (noted abandoned message q s.told)
                | err e ↦ fail message e (record s { outside = q.1 })
              ]
        ]
      ]

  unfoldable pub messages_of : List (Ack × Message) → List Message
  messages_of [] = []
  messages_of ((ack, m) ∷ l) = m ∷ messages_of l

  -- A message that may be completed, of those that come in the world w: it names no notification, or the run that
  -- follows the submission of its notifications returns with every message settled.
  abbrev pub Settled : Message → X → Type 0
  Settled m w =
      (queue.notes m ≡ ok [])
      ⊎ ((notes : List Note) × (x : X) × (y : X) × (report : RunReport) × (queue.notes m ≡ ok notes)
          × (for_all queue.submit notes w ≡ (ok tt, x))
          × (queue.run_once x ≡ (ok report, y))
          × (all_terminal report ≡ true))

  -- The world after a message that came in w: its handling, and what the receiver does when told.
  abbrev given_back : Message → Result (Unit {0}) × X → X
  given_back m (ok u, x) = x
  given_back m (err e, x) = (queue.abandon m x).1

  abbrev ended : Message → Result Bool × X → X
  ended m (err e, x) = (queue.abandon m x).1
  ended m (ok true, x) = (queue.complete m x).1
  ended m (ok false, x) = given_back m (queue.abandon m x)

  abbrev pub after : Message → X → X
  after m w = ended m (handle m w)

  abbrev Kept : Ack → Message → X → Type 0
  Kept completed m w = Settled m w
  Kept abandoned m w = Unit

  -- Every completed message may be, in the world that the messages before it leave of w.
  unfoldable pub Sound : X → List (Ack × Message) → Type 0
  Sound w [] = Unit
  Sound w ((ack, m) ∷ l) = Kept ack m w × Sound (after m w) l

  -- What the receiver was told, from how a pass ends.
  unfoldable pub Told : List Message → X → List (Ack × Message) → Result (Unit {0}) × State → Type 0
  unfolding messages_of Sound
  Told messages w told (ok u, t) =
      (new : List (Ack × Message)) × (t.told ≡ told ++ new)
      × (messages_of new ≡ messages)
      × Sound w new
  Told messages w told (err e, t) =
      (new : List (Ack × Message)) × (after : List Message) × (t.told ≡ told ++ new)
      × (messages_of new ++ after ≡ messages)
      × Sound w new

  Told-more :
      (ack : Ack) (m : Message) (messages : List Message) (w v : X) (told : List (Ack × Message))
      (p : Result (Unit {0}) × State)
      → Kept ack m w
      → after m w ≡ v
      → Told messages v (told ++ ((ack, m) ∷ [])) p
      → Told (m ∷ messages) w told p
  unfolding Told Sound messages_of
  Told-more ack m messages w v told (ok u, t) h q (new, e, f, sound) = (
    (ack, m) ∷ new,
    e ∙ append_assoc told ((ack, m) ∷ []) new,
    ap (◌∷◌ m) f,
    (h, subst (λ z. Sound z new) (sym q) sound),
  )
  Told-more ack m messages w v told (err z, t) h q (new, rest, e, f, sound) = (
    (ack, m) ∷ new,
    rest,
    e ∙ append_assoc told ((ack, m) ∷ []) new,
    ap (◌∷◌ m) f,
    (h, subst (λ z. Sound z new) (sym q) sound),
  )

  Told-none :
      (e : Exc) (messages : List Message) (w : X) (told : List (Ack × Message)) (x : X)
      → Told messages w told (err e, record { outside = x; told = told })
  unfolding Told Sound messages_of
  Told-none e messages w told x = ([], messages, sym (append-nil told), refl, tt)

  fail-Told :
      (m : Message) (messages : List Message) (w : X) (e : Exc) (s : State)
      → Told (m ∷ messages) w s.told (fail m e s)
  unfolding fail Told Sound messages_of
  fail-Told m messages w e s = go (queue.abandon m s.outside)
    where
      go :
          (p : Result (Unit {0}) × X)
          → Told (m ∷ messages) w s.told (err (first_error e p.0), noted abandoned m p s.told)
      go (ok u, x) = ((abandoned, m) ∷ [], messages, refl, refl, (tt, tt))
      go (err z, x) = ([], m ∷ messages, sym (append-nil s.told), refl, tt)

  Told-nothing : (s : State) → Told [] s.outside s.told (ok tt, s)
  unfolding Told Sound messages_of
  Told-nothing s = ([], sym (append-nil s.told), refl, tt)

  run-Settled :
      (m : Message) (notes : List Note) (w x : X) (p : Result RunReport × X) (y : X)
      → queue.notes m ≡ ok notes
      → for_all queue.submit notes w ≡ (ok tt, x)
      → queue.run_once x ≡ p
      → continue p (λ report z. (ok (all_terminal report), z)) ≡ (ok true, y)
      → Settled m w
  run-Settled m notes w x (ok report, z) y n f e h = inr (notes, x, z, report, n, f, e, ap was_ok h)
    where
      was_ok : Result Bool × X → Bool
      was_ok (ok b, z) = b
      was_ok (err e, z) = true
  run-Settled m notes w x (err z, v) y n f e h = cc

  submitted-Settled :
      (m : Message) (notes : List Note) (w : X) (p : Result (Unit {0}) × X) (y : X)
      → queue.notes m ≡ ok notes
      → for_all queue.submit notes w ≡ p
      → continue p (λ _. queue.run_once >>= λ report. pure (all_terminal report)) ≡ (ok true, y)
      → Settled m w
  submitted-Settled m notes w (ok u, x) y n f h =
      run-Settled m notes w x (queue.run_once x) y n f refl h
  submitted-Settled m notes w (err e, x) y n f h = cc

  notes-Settled :
      (m : Message) (r : Result (List Note)) (x y : X)
      → queue.notes m ≡ r
      → continue (r, x) (on_notes m) ≡ (ok true, y)
      → Settled m x
  unfolding for_all
  notes-Settled m (ok []) x y e h = inl e
  notes-Settled m (ok (n ∷ notes)) x y e h =
      submitted-Settled m (n ∷ notes) x (for_all queue.submit (n ∷ notes) x) y e refl h
  notes-Settled m (err z) x y e h = cc

  handle-Settled : (m : Message) (x y : X) → handle m x ≡ (ok true, y) → Settled m x
  unfolding handle
  handle-Settled m x y h = notes-Settled m (queue.notes m) x y refl h

  -- A pass tells the receiver of its messages in order, of each at most once: of all of them where it
  -- returns, and of the first ones where it raises. A message is completed only where it names no notification, or
  -- where the run that followed the submission of its notifications, in the world that the messages before it left,
  -- returned with every message settled; the others are abandoned.
  pub process_messages-Told :
      (messages : List Message) (s : State)
      → Told messages s.outside s.told (process_messages messages s)
  unfolding process_messages
  process_messages-Told [] s = Told-nothing s
  process_messages-Told (m ∷ messages) s =
      handled (handle m s.outside) refl (λ t. process_messages-Told messages t)
    where
      completed_then :
          (q : Result (Unit {0}) × X)
          → Settled m s.outside
          → after m s.outside ≡ q.1
          → ((t : State) → Told messages t.outside t.told (process_messages messages t))
          → Told
              (m ∷ messages)
              s.outside
              s.told
              (continue (q.0, noted completed m q s.told) λ _. process_messages messages)
      completed_then (ok u, x) h e ih =
          Told-more completed m messages s.outside x s.told
            (process_messages messages (noted completed m (ok u, x) s.told)) h e
            (ih (noted completed m (ok u, x) s.told))
      completed_then (err z, x) h e ih = Told-none z (m ∷ messages) s.outside s.told x

      abandoned_then :
          (q : Result (Unit {0}) × X)
          → after m s.outside ≡ given_back m q
          → ((t : State) → Told messages t.outside t.told (process_messages messages t))
          → Told (m ∷ messages) s.outside s.told (elim q.0 as (λ _. Result (Unit {0}) × State) [
            | ok u ↦ process_messages messages (noted abandoned m q s.told)
            | err e ↦ fail m e (record s { outside = q.1 })
          ])
      abandoned_then (ok u, x) e ih =
          Told-more abandoned m messages s.outside x s.told
            (process_messages messages (noted abandoned m (ok u, x) s.told)) tt e
            (ih (noted abandoned m (ok u, x) s.told))
      abandoned_then (err z, x) e ih = fail-Told m messages s.outside z (record s { outside = x })

      handled :
          (p : Result Bool × X)
          → handle m s.outside ≡ p
          → ((t : State) → Told messages t.outside t.told (process_messages messages t))
          → Told (m ∷ messages) s.outside s.told (elim p.0 as (λ _. Result (Unit {0}) × State) [
            | err e ↦ fail m e (record s { outside = p.1 })
            | ok done ↦ elim done as (λ _. Result (Unit {0}) × State) [
              | true ↦
                  let q = queue.complete m p.1 in
                  continue (q.0, noted completed m q s.told) λ _. process_messages messages
              | false ↦
                  let q = queue.abandon m p.1 in
                  elim q.0 as (λ _. Result (Unit {0}) × State) [
                    | ok u ↦ process_messages messages (noted abandoned m q s.told)
                    | err e ↦ fail m e (record s { outside = q.1 })
                  ]
            ]
          ])
      handled (err e, x) h ih = fail-Told m messages s.outside e (record s { outside = x })
      handled (ok true, x) h ih =
          completed_then (queue.complete m x) (handle-Settled m s.outside x h) (ap (ended m) h) ih
      handled (ok false, x) h ih = abandoned_then (queue.abandon m x) (ap (ended m) h) ih

  handle-unparsed :
      (m : Message) (x : X) (e : Exc) (handler : Lifecycle → Exec X (Unit {0}))
      → queue.notes m ≡ ok []
      → queue.lifecycle_handler ≡ some handler
      → queue.lifecycles m ≡ err e
      → handle m x ≡ (err e, x)
  unfolding handle
  handle-unparsed m x e handler h k l = rw (h, k, l)

  -- A message that is no notification, and whose lifecycle events do not parse.
  pub process_messages-unparsed :
      (m : Message) (messages : List Message) (s : State) (y : X) (e : Exc)
      (handler : Lifecycle → Exec X (Unit {0}))
      → queue.notes m ≡ ok []
      → queue.lifecycle_handler ≡ some handler
      → queue.lifecycles m ≡ err e
      → queue.abandon m s.outside ≡ (ok tt, y)
      → process_messages (m ∷ messages) s
        ≡ (err e, record { outside = y; told = s.told ++ ((abandoned, m) ∷ []) })
  unfolding process_messages fail
  process_messages-unparsed m messages s y e handler h k l g =
      ground (arith, handle-unparsed m s.outside e handler h k l)
