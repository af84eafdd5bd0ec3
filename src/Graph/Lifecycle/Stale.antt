-- ===== src/Graph/Lifecycle/Stale.antt =====
-- What the lifecycle handler (src/mailflow/adapters/graph/lifecycle.py) leaves behind for the reconciler
-- (reconciler.py) when a subscription is recreated.
use mailflow.Base.{Text, text_Eq, some, ◌≡◌}
use mailflow.Exec.{Exec, Exc, ok, err}
use mailflow.Dict
use mailflow.Dict.{Dict}
use mailflow.Core.Models.{StreamRef}
use mailflow.Graph.Subscriptions.{Client}

abbrev Handles : Type 0
Handles = Dict Text StreamRef

module _ {X : Type 0} (client : Client X) where
  -- Graph has lost a subscription: the clock reads, a renewal is refused with a 404, and a new subscription is created
  -- when it is asked for.
  pub record Lost (handle : Text) (gone : Exc) : Type 0 where
    pub reads : (x : X) → (e : Text) × (y : X) × (client.expiration_iso x ≡ (ok e, y))
    pub refuses :
        (e : Text) (x : X) → (y : X) × (client.renew_subscription handle e x ≡ (err gone, y))
    pub status : client.status_of gone ≡ some 404
    pub creates :
        (resource url state e : Text) (x : X)
        → (h : Text) × (y : X) × (client.create_subscription resource url state e x ≡ (ok h, y))
