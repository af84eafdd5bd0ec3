-- ===== src/Emit/Queue.antt =====
-- src/mailflow/emit/callback.py and memory.py: emitters that call a function, keep the events, or buffer the
-- emails on a queue. The queue's lock makes each of its operations one step.
use mailflow.Base.{
  Text, Bool, true, Option, none, some, List, [], ◌∷◌, ◌++◌, ◌≡◌, refl, ap, sym, ◌∙◌,
}
use mathlib.Core.List.{append_assoc, append-nil}
use mailflow.Exec.{Exec, pure, continue}
use mailflow.Core.Models.{CleanEmail, EmailEvent}

pub record EmitReceipt : Type 0 where
  pub id : Text
  pub accepted : Bool

unfoldable pub receipt : EmailEvent → EmitReceipt
receipt event = record { id = event.email.canonical_id; accepted = true }

-- `MemoryEmitter.emit`
unfoldable pub emit_memory : EmailEvent → List EmailEvent → EmitReceipt × List EmailEvent
unfolding receipt
emit_memory event events = (receipt event, events ++ (event ∷ []))

-- `CallbackEmitter.emit`
unfoldable pub emit_callback :
    {X : Type 0} → (CleanEmail → Exec X (Unit {0})) → EmailEvent → Exec X EmitReceipt
unfolding receipt
emit_callback fn event x = continue (fn event.email x) (λ _. pure (receipt event))

-- What lies on the queue of a `QueueEmitter`: an email, or the sentinel of `close`.
pub data Item : Type 0 where
  email : CleanEmail → Item
  sentinel : Item

unfoldable pub emit_queue : EmailEvent → List Item → EmitReceipt × List Item
unfolding receipt
emit_queue event q = (receipt event, q ++ (email event.email ∷ []))

unfoldable pub close : List Item → List Item
close q = q ++ (sentinel ∷ [])

-- The emails of the loop of `drain_nowait`, which ends with an empty queue.
unfoldable pub drained : List Item → List CleanEmail
drained [] = []
drained (email e ∷ q) = e ∷ drained q
drained (sentinel ∷ q) = drained q

unfoldable pub drain_nowait : List Item → List CleanEmail × List Item
unfolding drained
drain_nowait q = (drained q, [])

-- What `items` yields from what lies on the queue, and what it leaves there: none if it still waits.
unfoldable pub items : List Item → List CleanEmail × Option (List Item)
items [] = ([], none)
items (email e ∷ q) = let (es, rest) = items q in (e ∷ es, rest)
items (sentinel ∷ q) = ([], some q)

-- A use of the queue, by the pipeline or the application.
pub data Use : Type 0 where
  emitted : EmailEvent → Use
  closed : Use
  taken : Use

-- The queue after some uses, and all the emails that were drained by them.
unfoldable pub use_queue : List Use → List Item → List CleanEmail × List Item
unfolding emit_queue close drain_nowait
use_queue [] q = ([], q)
use_queue (emitted event ∷ us) q = use_queue us (emit_queue event q).1
use_queue (closed ∷ us) q = use_queue us (close q)
use_queue (taken ∷ us) q =
    let (es, q1) = drain_nowait q in let (later, q2) = use_queue us q1 in (es ++ later, q2)

-- The emails that were emitted, in their order.
abbrev pub emitted_emails : List Use → List CleanEmail
emitted_emails [] = []
emitted_emails (emitted event ∷ us) = event.email ∷ emitted_emails us
emitted_emails (closed ∷ us) = emitted_emails us
emitted_emails (taken ∷ us) = emitted_emails us

drained-append : (p q : List Item) → drained (p ++ q) ≡ drained p ++ drained q
unfolding drained
drained-append [] q = refl
drained-append (email e ∷ p) q = ap (◌∷◌ e) (drained-append p q)
drained-append (sentinel ∷ p) q = drained-append p q

-- However emissions, closes and drains follow one another, the emails that were drained, followed by
-- those that are still on the queue, are those that were on it, followed by those that were emitted:
-- in their order, none lost and none twice.
pub use_queue-in_order :
    (us : List Use) (q : List Item)
    → (use_queue us q).0 ++ drained (use_queue us q).1 ≡ drained q ++ emitted_emails us
unfolding use_queue
use_queue-in_order [] q = sym (append-nil (drained q))
use_queue-in_order (emitted event ∷ us) q =
    use_queue-in_order us (q ++ (email event.email ∷ []))
    ∙ (ap (λ l. l ++ emitted_emails us) (drained-append q (email event.email ∷ []))
        ∙ append_assoc (drained q) (event.email ∷ []) (emitted_emails us))
use_queue-in_order (closed ∷ us) q =
    use_queue-in_order us (q ++ (sentinel ∷ []))
    ∙ ap (λ l. l ++ emitted_emails us) (drained-append q (sentinel ∷ []) ∙ append-nil (drained q))
use_queue-in_order (taken ∷ us) q =
    append_assoc (drained q) (use_queue us []).0 (drained (use_queue us []).1)
    ∙ ap (λ l. drained q ++ l) (use_queue-in_order us [])
