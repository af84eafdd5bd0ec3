-- ===== src/Gmail/Runtime.antt =====
-- `GmailPubSubRuntime` of src/mailflow/adapters/gmail/runtime.py and `sweep_once` of bootstrap.py. The parser is
-- `parse_pubsub_message` without a verifier; the provider's inbox, the pipeline's run and the client's
-- profile are parameters.
use mailflow.Base.{
  ℤ, show_int, Text, Option, none, some, List, [], ◌∷◌, ◌++◌, ◌≡◌, refl, ap, ◌∙◌, sym,
}
use mathlib.Core.List.{append_assoc, append-nil}
use mailflow.Exec.{Exec, Result, ok, err, pure, continue, ◌>>=◌, ◌>>◌}

pub record PubSub (X Message : Type 0) : Type 0 where
  pub parse : Message → Result (Option (Text × ℤ))
  pub submit : Text → Text → Exec X (Unit {0})
  pub run_once : Exec X (Unit {0})

module _ {X Message : Type 0} (hub : PubSub X Message) where
  -- The world outside, and the messages that were acknowledged.
  pub record State : Type 0 where
    pub outside : X
    pub acked : List Message

  abbrev on_parsed : Option (Text × ℤ) → Exec X (Unit {0})
  on_parsed none = pure tt
  on_parsed (some (email_address, history_id)) =
      hub.submit email_address (show_int history_id) >> hub.run_once

  -- The body of the loop up to the acknowledgement.
  unfoldable pub handle : Message → Exec X (Unit {0})
  unfolding show_int
  handle message x = continue (hub.parse message, x) on_parsed

  unfoldable pub process_messages : List Message → Exec State (Unit {0})
  unfolding handle
  process_messages [] s = (ok tt, s)
  process_messages (message ∷ messages) s =
      let (r, x) = handle message s.outside in
      elim r [
        | err e ↦ (err e, record s { outside = x })
        | ok u ↦
            process_messages messages (record { outside = x; acked = s.acked ++ (message ∷ []) })
      ]

  -- All messages are acknowledged, or those before the one that raised, whose handling starts from
  -- the state that the acknowledged ones left.
  abbrev pub Acked : List Message → State → Result (Unit {0}) × State → Type 0
  Acked messages s (ok u, t) = t.acked ≡ s.acked ++ messages
  Acked messages s (err e, t) =
      (before : List Message) × (message : Message) × (after : List Message) × (x : X) × (messages
        ≡ before ++ (message ∷ after))
      × (t.acked ≡ s.acked ++ before)
      × (handle message x ≡ (err e, t.outside))

  -- The acknowledgement is the checkpoint: a pass that returns has acknowledged every message in order; one
  -- that raises has acknowledged exactly the messages before the one whose handling raised, so that this
  -- one and those behind it are delivered again.
  pub process_messages-Acked :
      (messages : List Message) (s : State) → Acked messages s (process_messages messages s)
  unfolding process_messages
  process_messages-Acked [] s = sym (append-nil s.acked)
  process_messages-Acked (message ∷ messages) s =
      go (handle message s.outside) refl (λ t. process_messages-Acked messages t)
    where
      extend :
          (p : Result (Unit {0}) × State) (x : X)
          → Acked messages (record { outside = x; acked = s.acked ++ (message ∷ []) }) p
          → Acked (message ∷ messages) s p
      extend (ok u, t) x h = h ∙ append_assoc s.acked (message ∷ []) messages
      extend (err e, t) x (before, m, after, y, split, acked, failed) = (
        message ∷ before,
        m,
        after,
        y,
        ap (◌∷◌ message) split,
        acked ∙ append_assoc s.acked (message ∷ []) before,
        failed,
      )

      go :
          (p : Result (Unit {0}) × X)
          → handle message s.outside ≡ p
          → ((t : State) → Acked messages t (process_messages messages t))
          → Acked (message ∷ messages) s (elim p.0 as (λ _. Result (Unit {0}) × State) [
            | err e ↦ (err e, record s { outside = p.1 })
            | ok u ↦
                process_messages messages
                  (record { outside = p.1; acked = s.acked ++ (message ∷ []) })
          ])
      go (err e, x) q ih = ([], message, messages, s.outside, refl, sym (append-nil s.acked), q)
      go (ok u, x) q ih =
          extend
            (process_messages messages (record { outside = x; acked = s.acked ++ (message ∷ []) }))
            x (ih (record { outside = x; acked = s.acked ++ (message ∷ []) }))

  -- `sweep_once`: `profile_id` is str(client.get_profile(mailbox).get("historyId", "0")).
  unfoldable pub submit_all : (Text → Exec X Text) → List Text → Exec X (Unit {0})
  submit_all profile_id [] = pure tt
  submit_all profile_id (mailbox ∷ mailboxes) = profile_id mailbox >>= λ history_id.
      hub.submit mailbox history_id >> submit_all profile_id mailboxes

  unfoldable pub sweep_once : (Text → Exec X Text) → List Text → Exec X (Unit {0})
  unfolding submit_all
  sweep_once profile_id mailboxes = submit_all profile_id mailboxes >> hub.run_once
