-- ===== src/Graph/Subscriptions.antt =====
-- src/mailflow/adapters/graph/subscriptions.py: the subscription manager.
use mailflow.Base.{
  ℕ, ◌==◌, Text, text, text_eq, text_Eq, text_eq_iff, false, Option, none, some, List, [], ◌∷◌,
  ◌++◌, ◌≡◌, ◌≢◌, refl, ap, sym, ◌∙◌, arith, Bool-cases, inl, inr, if◌then◌else◌,
}
use mailflow.Exec.{Exec, Exc, Result, ok, err, pure, raise, modify, continue, ◌>>=◌, ◌>>◌}
use mailflow.Dict
use mailflow.Dict.{Dict, get-put}
use mailflow.Core.Models.{StreamRef}

-- stream.folder or "inbox"
abbrev pub folder_or_inbox : Option Text → Text
folder_or_inbox none = text "inbox"
folder_or_inbox (some []) = text "inbox"
folder_or_inbox (some (c ∷ s)) = c ∷ s

unfoldable pub folder_resource : StreamRef → Text
folder_resource stream =
    text "users/"
    ++ (stream.mailbox
        ++ (text "/mailFolders('" ++ (folder_or_inbox stream.folder ++ text "')/messages")))

-- What Graph lists of a subscription.
pub record Subscription : Type 0 where
  pub id : Text
  pub resource : Text
  pub notification_url : Text

-- The client, and the settings of the manager. `expiration_iso` reads the clock and adds the minutes
-- of the configuration; `status_of` is the status code of a `GraphError`, none of other exceptions.
pub record Client (X : Type 0) : Type 0 where
  pub create_subscription : Text → Text → Text → Text → Exec X Text
  pub renew_subscription : Text → Text → Exec X (Unit {0})
  pub list_subscriptions : Exec X (List Subscription)
  pub expiration_iso : Exec X Text
  pub status_of : Exc → Option ℕ
  pub notification_url : Text
  pub client_state : Text

pub record Manager (X : Type 0) : Type 0 where
  pub outside : X
  pub stream_by_handle : Dict Text StreamRef

module _ {X : Type 0} (client : Client X) where
  abbrev pub lift : {A : Type 0} → Exec X A → Exec (Manager X) A
  lift m s = let (r, x) = m s.outside in (r, record s { outside = x })

  unfoldable pub register : Text → StreamRef → Manager X → Manager X
  register handle stream s = record s {
    stream_by_handle = Dict.put s.stream_by_handle handle stream;
  }

  unfoldable pub forget : Text → Manager X → Manager X
  forget handle s = record s { stream_by_handle = Dict.remove s.stream_by_handle handle }

  unfoldable pub ensure_watch : StreamRef → Exec (Manager X) Text
  unfolding register folder_resource
  ensure_watch stream = do
    expiration ← lift client.expiration_iso
    handle ← lift (
        client.create_subscription (folder_resource stream) client.notification_url
          client.client_state expiration)
    modify (register handle stream)
    pure handle

  -- The handler of `renew_watch`, with what the manager knows of the subscription.
  unfoldable pub recreate : Text → Exc → Option ℕ → Option StreamRef → Exec (Manager X) Text
  unfolding ensure_watch forget
  recreate sub_id exc none known = raise exc
  recreate sub_id exc (some status) none = raise exc
  recreate sub_id exc (some status) (some stream) =
      if status == 404
      then (ensure_watch stream >>= λ new_handle. modify (forget sub_id) >> pure new_handle)
      else raise exc

  unfoldable pub renew_watch : Text → Exec (Manager X) Text
  unfolding recreate
  renew_watch sub_id s =
      let (r, s1) =
        (lift client.expiration_iso >>= λ expiration.
        lift (client.renew_subscription sub_id expiration))
          s in
      elim r [
        | ok _ ↦ (ok sub_id, s1)
        | err exc ↦
            recreate sub_id exc (client.status_of exc) (Dict.get s1.stream_by_handle sub_id) s1
      ]

  get-remove_other :
      (d : Dict Text StreamRef) (k j : Text)
      → text_eq k j ≡ false
      → Dict.get (Dict.remove d k) j ≡ Dict.get d j
  unfolding Dict.get Dict.remove
  get-remove_other [] k j h = refl
  get-remove_other ((i, v) ∷ d) k j h =
      ground (arith, get-remove_other d k j, text_eq_iff i k, text_eq_iff i j, text_eq_iff k j)

  -- Graph never gives a new subscription the id `handle`.
  abbrev pub Unused : Text → Type 0
  Unused handle =
      (resource url state expiration : Text) (x : X)
      → (client.create_subscription resource url state expiration x).0 ≢ ok handle

  -- What is known of the subscription that an action returns.
  abbrev Tracked : Text → StreamRef → Result Text × Manager X → Type 0
  Tracked handle stream (ok h, s) =
      (text_eq handle h ≡ false) × (Dict.get s.stream_by_handle h ≡ some stream)
  Tracked handle stream (err e, s) = Unit

  ensure_watch-Tracked :
      (handle : Text) (stream : StreamRef) (s : Manager X)
      → Unused handle
      → Tracked handle stream (ensure_watch stream s)
  unfolding ensure_watch register
  ensure_watch-Tracked handle stream s fresh = expired (client.expiration_iso s.outside)
    where
      created :
          (p : Result Text × X)
          → (p.0 ≢ ok handle)
          → Tracked handle stream
              (continue (p.0, record s { outside = p.1 }) λ h. modify (register h stream) >> pure h)
      created (err e, x) ne = tt
      created (ok h, x) ne = (
        different h (λ e. ne (ap ok (sym e))),
        ground (arith, get-put s.stream_by_handle h h stream, text_eq_iff h h),
      )
        where
          different : (h : Text) → handle ≢ h → text_eq handle h ≡ false
          different h n = elim (Bool-cases (text_eq handle h)) [
            | inl same ↦ absurd (n ((text_eq_iff handle h).0 same))
            | inr other ↦ other
          ]

      expired :
          (p : Result Text × X)
          → Tracked handle stream (
              continue
                (p.0, record s { outside = p.1 })
                λ expiration.
                  lift (
                    client.create_subscription
                      (folder_resource stream)
                      client.notification_url
                      client.client_state
                      expiration)
                  >>= λ h. modify (register h stream) >> pure h)
      expired (err e, x) = tt
      expired (ok expiration, x) =
          created
            (client.create_subscription (folder_resource stream) client.notification_url
              client.client_state expiration x)
            (fresh (folder_resource stream) client.notification_url client.client_state expiration
              x)

  -- A returned subscription is known to watch the stream.
  abbrev pub Watches : StreamRef → Result Text × Manager X → Type 0
  Watches stream (ok h, s) = Dict.get s.stream_by_handle h ≡ some stream
  Watches stream (err e, s) = Unit

  recreate-Watches :
      (handle : Text) (exc : Exc) (status : Option ℕ) (stream : StreamRef) (s : Manager X)
      → Unused handle
      → Watches stream (recreate handle exc status (some stream) s)
  unfolding recreate forget
  recreate-Watches handle exc none stream s fresh = tt
  recreate-Watches handle exc (some status) stream s fresh = elim (Bool-cases (status == 404)) [
    | inl gone ↦
        rw gone (after (ensure_watch stream s) (ensure_watch-Tracked handle stream s fresh))
    | inr other ↦ rw other tt
  ]
    where
      after :
          (p : Result Text × Manager X)
          → Tracked handle stream p
          → Watches stream (continue p λ h. modify (forget handle) >> pure h)
      after (err e, s1) h = tt
      after (ok h, s1) t = get-remove_other s1.stream_by_handle handle h t.0 ∙ t.1

  -- Renewing a subscription that is known to watch a stream gives a subscription that is known to
  -- watch that stream, the same one or, where Graph no longer has it, a new one; or it raises. Graph
  -- never gives a new subscription the id of the one that is renewed.
  pub renew_watch-Watches :
      (handle : Text) (stream : StreamRef) (s : Manager X)
      → Unused handle
      → Dict.get s.stream_by_handle handle ≡ some stream
      → Watches stream (renew_watch handle s)
  unfolding renew_watch
  renew_watch-Watches handle stream s fresh known = expired (client.expiration_iso s.outside)
    where
      rescued :
          (e : Exc) (x : X)
          → Watches stream (
              recreate handle e
                (client.status_of e)
                (Dict.get s.stream_by_handle handle)
                (record s { outside = x }))
      rescued e x =
          rw known
            (recreate-Watches handle e (client.status_of e) stream (record s { outside = x }) fresh)

      renewed :
          (p : Result (Unit {0}) × X)
          → Watches stream (elim p.0 as (λ _. Result Text × Manager X) [
            | ok _ ↦ (ok handle, record s { outside = p.1 })
            | err e ↦
                recreate handle e
                  (client.status_of e)
                  (Dict.get s.stream_by_handle handle)
                  (record s { outside = p.1 })
          ])
      renewed (ok _, x) = known
      renewed (err e, x) = rescued e x

      expired :
          (p : Result Text × X)
          → Watches stream (
              let (r, s1) =
                continue
                  (p.0, record s { outside = p.1 })
                  λ expiration. lift (client.renew_subscription handle expiration) in
              elim r as (λ _. Result Text × Manager X) [
                | ok _ ↦ (ok handle, s1)
                | err e ↦
                    recreate handle e (client.status_of e) (Dict.get s1.stream_by_handle handle) s1
              ])
      expired (ok expiration, x) = renewed (client.renew_subscription handle expiration x)
      expired (err e, x) = rescued e x
