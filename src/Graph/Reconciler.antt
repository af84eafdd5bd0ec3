-- ===== src/Graph/Reconciler.antt =====
-- src/mailflow/adapters/graph/reconciler.py: the subscriptions for the mailboxes and folders of the
-- configuration.
pub mod Covered
use mailflow.Base.{
  Text, text_eq, text_Eq, text_eq_iff, true, Option, none, some, List, [], ◌∷◌, ◌++◌, ◌≡◌, subst,
  is_some, arith, Bool-cases, inl, inr, if◌then◌else◌,
}
use mailflow.Exec.{Exec, Result, ok, err, pure, modify, continue, ◌>>=◌, ◌>>◌}
use mailflow.Dict
use mailflow.Dict.{Dict, get-put}
use mailflow.Core.Models.{StreamRef, stream_key}
use mailflow.Graph.Subscriptions.{
  Client, Manager, Subscription, lift, register, ensure_watch, renew_watch, folder_resource,
}

abbrev with_folders : Text → List Text → List StreamRef
with_folders mailbox [] = []
with_folders mailbox (folder ∷ folders) =
    record { mailbox = mailbox; folder = some folder } ∷ with_folders mailbox folders

unfoldable pub desired_streams : List Text → List Text → List StreamRef
desired_streams [] folders = []
desired_streams (mailbox ∷ mailboxes) folders =
    with_folders mailbox folders ++ desired_streams mailboxes folders

-- The ids of our subscriptions by resource.
unfoldable pub actual_from : Text → List Subscription → Dict Text Text → Dict Text Text
actual_from url [] actual = actual
actual_from url (sub ∷ subs) actual =
    actual_from url subs
      (if text_eq sub.notification_url url then Dict.put actual sub.resource sub.id else actual)

module _ {X : Type 0} (client : Client X) where
  -- The handle of a stream, with our subscription to its resource if there is one.
  unfoldable pub handle_for : StreamRef → Option Text → Exec (Manager X) Text
  handle_for stream (some existing) = modify (register client existing stream) >> pure existing
  handle_for stream none = ensure_watch client stream

  -- The loop over the desired streams.
  unfoldable pub handles_from :
      Dict Text Text → List StreamRef → Dict Text Text → Exec (Manager X) (Dict Text Text)
  handles_from actual [] handles = pure handles
  handles_from actual (stream ∷ streams) handles =
      handle_for stream (Dict.get actual (folder_resource stream)) >>= λ handle.
      handles_from actual streams (Dict.put handles (stream_key stream) handle)

  unfoldable pub reconcile : List StreamRef → Exec (Manager X) (Dict Text Text)
  unfolding handles_from actual_from
  reconcile streams = lift client client.list_subscriptions >>= λ subs.
      handles_from (actual_from client.notification_url subs []) streams []

  -- The loop of `renew_all` over the tracked handles.
  unfoldable pub renew_from : Dict Text Text → Dict Text Text → Exec (Manager X) (Dict Text Text)
  renew_from [] renewed = pure renewed
  renew_from ((key, handle) ∷ handles) renewed = renew_watch client handle >>= λ new_handle.
      renew_from handles (Dict.put renewed key new_handle)

  unfoldable pub renew_all : Dict Text Text → Exec (Manager X) (Dict Text Text)
  unfolding renew_from
  renew_all handles = renew_from handles []
