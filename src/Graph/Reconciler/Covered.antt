-- ===== src/Graph/Reconciler/Covered.antt =====
-- The subscriptions that a reconciliation (src/mailflow/adapters/graph/reconciler.py) leaves.
use mailflow.Base.{
  Text, text_eq, text_Eq, text_eq_iff, Bool, true, false, ◌&&◌, ◌||◌, Option, none, some, List, [],
  ◌∷◌, ◌≡◌, refl, sym, subst, is_some, arith, Bool-cases, inl, inr,
}
use mailflow.Exec.{Exec, Exc, Result, ok, err, pure, modify, ◌>>=◌, ◌>>◌, continue}
use mailflow.Dict
use mailflow.Dict.{Dict, get-put}
use mailflow.Core.Models.{StreamRef, stream_key}
use mailflow.Graph.Subscriptions.{
  Client, Manager, Subscription, lift, register, ensure_watch, folder_resource,
}
use mailflow.Graph.Reconciler.{actual_from, handle_for, handles_from, reconcile}

abbrev Known : {V : Type 0} → Dict Text V → Text → Type 0
Known d k = is_some (Dict.get d k) ≡ true

put-Known : {V : Type 0} (d : Dict Text V) (k : Text) (v : V) → Known (Dict.put d k v) k
put-Known d k v = ground (arith, get-put d k k v, text_eq_iff k k)

put-keeps-Known :
    {V : Type 0} (d : Dict Text V) (k : Text) (v : V) (j : Text)
    → Known d j
    → Known (Dict.put d k v) j
put-keeps-Known d k v j h = ground (arith, get-put d k j v)

module _ {X : Type 0} (client : Client X) where
  -- The handle under a key is of a subscription that the manager knows.
  abbrev Tracked : Dict Text Text → Manager X → Text → Type 0
  Tracked handles s key = (h : Text) × (Dict.get handles key ≡ some h) × Known s.stream_by_handle h

  -- Every stream has such a handle.
  abbrev pub Covered : List StreamRef → Result (Dict Text Text) × Manager X → Type 0
  Covered streams (err e, s) = Unit
  Covered [] (ok handles, s) = Unit
  Covered (stream ∷ streams) (ok handles, s) =
      Tracked handles s (stream_key stream) × Covered streams (ok handles, s)

  -- What a handle for a stream adds: the manager knows it, and forgets none.
  abbrev Grown : Manager X → Result Text × Manager X → Type 0
  Grown s (ok handle, s1) =
      Known s1.stream_by_handle handle
      × ((h : Text) → Known s.stream_by_handle h → Known s1.stream_by_handle h)
  Grown s (err e, s1) = Unit

  handle_for-Grown :
      (stream : StreamRef) (o : Option Text) (s : Manager X)
      → Grown s (handle_for client stream o s)
  unfolding handle_for ensure_watch register
  handle_for-Grown stream (some existing) s = (
    put-Known s.stream_by_handle existing stream,
    put-keeps-Known s.stream_by_handle existing stream,
  )
  handle_for-Grown stream none s = read (client.expiration_iso s.outside)
    where
      created :
          (p : Result Text × X)
          → Grown s (
              continue
                (p.0, record s { outside = p.1 })
                λ h. modify (register client h stream) >> pure h)
      created (err e, x) = tt
      created (ok h, x) =
          (put-Known s.stream_by_handle h stream, put-keeps-Known s.stream_by_handle h stream)

      read :
          (p : Result Text × X)
          → Grown s (
              continue
                (p.0, record s { outside = p.1 })
                λ expiration.
                  lift client (
                    client.create_subscription
                      (folder_resource stream)
                      client.notification_url
                      client.client_state
                      expiration)
                  >>= λ h. modify (register client h stream) >> pure h)
      read (err e, x) = tt
      read (ok expiration, x) = created (
          client.create_subscription (folder_resource stream) client.notification_url
            client.client_state expiration x)

  -- The rest of a loop from the handle of one stream.
  abbrev rest_of :
      Dict Text Text
      → StreamRef
      → List StreamRef
      → Dict Text Text
      → Text
      → Exec (Manager X) (Dict Text Text)
  rest_of actual stream streams handles handle =
      handles_from client actual streams (Dict.put handles (stream_key stream) handle)

  -- What was returned has a tracked handle under a key.
  abbrev Has : Text → Result (Dict Text Text) × Manager X → Type 0
  Has key (ok handles, s) = Tracked handles s key
  Has key (err e, s) = Unit

  put-Tracked :
      (handles : Dict Text Text) (s : Manager X) (k handle key : Text)
      → Known s.stream_by_handle handle
      → Tracked handles s key
      → Tracked (Dict.put handles k handle) s key
  put-Tracked handles s k handle key known (h, e, t) = elim (Bool-cases (text_eq k key)) [
    | inl same ↦ (handle, ground (arith, get-put handles k key handle, same), known)
    | inr other ↦ (h, ground (arith, get-put handles k key handle, other, e), t)
  ]

  handles_from-Has :
      (actual : Dict Text Text) (streams : List StreamRef) (handles : Dict Text Text)
      (s : Manager X) (key : Text)
      → Tracked handles s key
      → Has key (handles_from client actual streams handles s)
  unfolding handles_from
  handles_from-Has actual [] handles s key h = h
  handles_from-Has actual (stream ∷ streams) handles s key h =
      next (handle_for client stream (Dict.get actual (folder_resource stream)) s)
        (handle_for-Grown stream (Dict.get actual (folder_resource stream)) s)
        (λ handle s1.
          handles_from-Has actual streams (Dict.put handles (stream_key stream) handle) s1 key)
    where
      next :
          (p : Result Text × Manager X)
          → Grown s p
          → ((handle : Text) (s1 : Manager X)
              → Tracked (Dict.put handles (stream_key stream) handle) s1 key
              → Has key (rest_of actual stream streams handles handle s1))
          → Has key (continue p (rest_of actual stream streams handles))
      next (err e, s1) g ih = tt
      next (ok handle, s1) g ih =
          ih handle s1
            (put-Tracked handles s1 (stream_key stream) handle key g.0 (h.0, h.1, g.1 h.0 h.2))

  both-Covered :
      (stream : StreamRef) (streams : List StreamRef) (p : Result (Dict Text Text) × Manager X)
      → Has (stream_key stream) p
      → Covered streams p
      → Covered (stream ∷ streams) p
  both-Covered stream streams (ok handles, s) h k = (h, k)
  both-Covered stream streams (err e, s) h k = tt

  none-Covered : (p : Result (Dict Text Text) × Manager X) → Covered [] p
  none-Covered (ok handles, s) = tt
  none-Covered (err e, s) = tt

  failed-Covered : (streams : List StreamRef) (e : Exc) (s : Manager X) → Covered streams (err e, s)
  failed-Covered [] e s = tt
  failed-Covered (stream ∷ streams) e s = tt

  handles_from-Covered :
      (actual : Dict Text Text) (streams : List StreamRef) (handles : Dict Text Text)
      (s : Manager X)
      → Covered streams (handles_from client actual streams handles s)
  unfolding handles_from
  handles_from-Covered actual [] handles s = none-Covered (ok handles, s)
  handles_from-Covered actual (stream ∷ streams) handles s =
      next (handle_for client stream (Dict.get actual (folder_resource stream)) s)
        (handle_for-Grown stream (Dict.get actual (folder_resource stream)) s)
        (λ handle s1.
          handles_from-Covered actual streams (Dict.put handles (stream_key stream) handle) s1)
    where
      next :
          (p : Result Text × Manager X)
          → Grown s p
          → ((handle : Text) (s1 : Manager X)
              → Covered streams (rest_of actual stream streams handles handle s1))
          → Covered (stream ∷ streams) (continue p (rest_of actual stream streams handles))
      next (err e, s1) g ih = tt
      next (ok handle, s1) g ih =
          both-Covered stream streams (rest_of actual stream streams handles handle s1)
            (handles_from-Has actual streams (Dict.put handles (stream_key stream) handle) s1
              (stream_key stream)
              (
                handle,
                ground (
                  arith,
                  get-put handles (stream_key stream) (stream_key stream) handle,
                  text_eq_iff (stream_key stream) (stream_key stream),
                ),
                g.0,
              ))
            (ih handle s1)

  -- One of the subscriptions is ours and watches a resource.
  abbrev pub lists : Text → List Subscription → Bool
  lists resource [] = false
  lists resource (sub ∷ subs) =
      (text_eq sub.notification_url client.notification_url && text_eq sub.resource resource)
      || lists resource subs

  abbrev pub AllListed : List Subscription → List StreamRef → Type 0
  AllListed subs [] = Unit
  AllListed subs (stream ∷ streams) =
      (lists (folder_resource stream) subs ≡ true) × AllListed subs streams

  actual_from-keeps :
      (subs : List Subscription) (actual : Dict Text Text) (resource : Text)
      → Known actual resource
      → Known (actual_from client.notification_url subs actual) resource
  unfolding actual_from
  actual_from-keeps [] actual resource h = h
  actual_from-keeps (sub ∷ subs) actual resource h =
      elim (Bool-cases (text_eq sub.notification_url client.notification_url)) [
        | inl ours ↦ rw (ours) (
            actual_from-keeps subs (Dict.put actual sub.resource sub.id) resource
              (put-keeps-Known actual sub.resource sub.id resource h))
        | inr other ↦ rw (other) (actual_from-keeps subs actual resource h)
      ]

  actual_from-lists :
      (subs : List Subscription) (actual : Dict Text Text) (resource : Text)
      → lists resource subs ≡ true
      → Known (actual_from client.notification_url subs actual) resource
  unfolding actual_from
  actual_from-lists [] actual resource h = cc
  actual_from-lists (sub ∷ subs) actual resource h =
      elim (Bool-cases (text_eq sub.notification_url client.notification_url)) [
        | inr other ↦ rw (other) (actual_from-lists subs actual resource (rw (other) at h))
        | inl ours ↦ rw (ours) (elim (Bool-cases (text_eq sub.resource resource)) [
          | inl same ↦
              actual_from-keeps subs (Dict.put actual sub.resource sub.id) resource
                (ground (arith, get-put actual sub.resource resource sub.id, same))
          | inr different ↦
              actual_from-lists subs (Dict.put actual sub.resource sub.id) resource
                (rw (ours, different) at h)
        ])
      ]

  -- A reconciliation that returns leaves a handle for every desired stream, whatever Graph listed, each of a
  -- subscription that the manager knows.
  pub reconcile-Covered :
      (streams : List StreamRef) (s : Manager X) → Covered streams (reconcile client streams s)
  unfolding reconcile
  reconcile-Covered streams s = listed (client.list_subscriptions s.outside)
    where
      listed :
          (p : Result (List Subscription) × X)
          → Covered streams (
              continue
                (p.0, record s { outside = p.1 })
                λ subs.
                  handles_from client (actual_from client.notification_url subs []) streams [])
      listed (ok subs, x) =
          handles_from-Covered (actual_from client.notification_url subs []) streams []
            (record s { outside = x })
      listed (err e, x) = failed-Covered streams e (record s { outside = x })

  found : (o : Option Text) → is_some o ≡ true → (v : Text) × (o ≡ some v)
  found none h = cc
  found (some v) h = (v, refl)

  -- It returned, and left the world outside as it was.
  abbrev pub Quiet : X → Result (Dict Text Text) × Manager X → Type 0
  Quiet x (ok handles, s) = s.outside ≡ x
  Quiet x (err e, s) = ⊥

  handles_from-Quiet :
      (subs : List Subscription) (streams : List StreamRef) (handles : Dict Text Text)
      (s : Manager X)
      → AllListed subs streams
      → Quiet s.outside
          (handles_from client (actual_from client.notification_url subs []) streams handles s)
  unfolding handles_from handle_for register
  handles_from-Quiet subs [] handles s h = refl
  handles_from-Quiet subs (stream ∷ streams) handles s h =
      let (id, q) =
        found (Dict.get (actual_from client.notification_url subs []) (folder_resource stream))
          (actual_from-lists subs [] (folder_resource stream) h.0) in
      rw (q) (
        handles_from-Quiet subs streams (Dict.put handles (stream_key stream) id)
          (register client id stream s) h.1)

  -- Where Graph lists a subscription of ours for every desired stream, a reconciliation returns, and has asked Graph
  -- for nothing but the list: no subscription is created a second time.
  pub reconcile-Quiet :
      (streams : List StreamRef) (s : Manager X) (subs : List Subscription) (x : X)
      → client.list_subscriptions s.outside ≡ (ok subs, x)
      → AllListed subs streams
      → Quiet x (reconcile client streams s)
  unfolding reconcile
  reconcile-Quiet streams s subs x h k =
      subst
        (λ (p : Result (List Subscription) × X). Quiet x (
          continue (p.0, record s { outside = p.1 })
            λ subs. handles_from client (actual_from client.notification_url subs []) streams []))
        (sym h) (handles_from-Quiet subs streams [] (record s { outside = x }) k)
