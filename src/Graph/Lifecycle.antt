-- ===== src/Graph/Lifecycle.antt =====
-- src/mailflow/adapters/graph/lifecycle.py, on the subscription manager.
pub mod Stale
use mailflow.Base.{Text, text, text_eq, text_Eq, Option, none, some, ◌≡◌, arith, if◌then◌else◌}
use mailflow.Exec.{Exec, Exc, ok, err, pure, ◌>>◌}
use mailflow.Dict
use mailflow.Dict.{Dict, NodupKeys}
use mailflow.Core.Models.{StreamRef}
use mailflow.Graph.Subscriptions.{Client, Manager, lift, ensure_watch, renew_watch, recreate}

pub record LifecycleEvent : Type 0 where
  pub subscription_id : Text
  pub lifecycle_event : Text
  pub stream : Option StreamRef

module _ {X : Type 0} (client : Client X) where
  abbrev on_removed : Option StreamRef → Exec (Manager X) Text
  on_removed none = pure (text "ignored")
  on_removed (some stream) = ensure_watch client stream >> pure (text "recreated")

  abbrev on_missed :
      Option (StreamRef → Exec X (Unit {0})) → Option StreamRef → Exec (Manager X) Text
  on_missed (some resync) (some stream) = lift client (resync stream) >> pure (text "resynced")
  on_missed (some resync) none = pure (text "ignored")
  on_missed none stream = pure (text "ignored")

  -- `GraphLifecycleHandler.handle`; the id that `renew_watch` returns is not kept.
  unfoldable pub handle_event :
      Option (StreamRef → Exec X (Unit {0})) → LifecycleEvent → Exec (Manager X) Text
  unfolding text_eq
  handle_event resync event =
      if text_eq event.lifecycle_event (text "reauthorizationRequired")
      then renew_watch client event.subscription_id >> pure (text "renewed")
      else if text_eq event.lifecycle_event (text "subscriptionRemoved")
      then on_removed event.stream
      else if text_eq event.lifecycle_event (text "missed")
      then on_missed resync event.stream
      else pure (text "ignored")
