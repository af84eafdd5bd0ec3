-- ===== src/Graph/Provider.antt =====
-- `GraphProvider` of src/mailflow/adapters/graph/provider.py, over the client. `json.dumps(..).encode()` and the
-- clock are parameters. A generator is what it yields, the exception that ends it, if one does, and the
-- provider that it leaves, as the pipeline reads it to its end.
pub mod Fetch
pub mod Feed
pub mod Inbox
pub mod Restart
pub mod Streams
use mailflow.Base.{
  ℕ, suc, ◌==◌, ◌+◌, Bool, true, false, ℤ, pos, Text, text, text_Eq, show_nat, starts_with, not,
  Option, none, some, List, [], ◌∷◌, ◌++◌, length, has, add_new, add_all, if◌then◌else◌,
}
use mailflow.Exec.{Exec, Exc, unknown, Result, ok, err, pure, raise, ◌>>=◌, ◌>>◌}
use mailflow.Exec.Results
use mailflow.Dict
use mailflow.Dict.{Dict, or_default}
use mailflow.Json.{
  Json, Items, Fields, null, str, array, nil, object, end, field, entries, fields_of, items_of,
  get_or, or_else, str_of, truthy,
}
use mailflow.Core.Models.{RawMessage, StreamRef, stream_key, Cursor, Bytes, Time}
use mailflow.Core.Streams.{stream_Eq}
use mailflow.Graph.Subscriptions.{folder_or_inbox}
use mailflow.Graph.Notifications.{Notification}
use mailflow.Graph.Client.{
  GraphClient, get_message, get_message_by_internet_id, list_attachments, lift_result,
}
use mailflow.Graph.Client.Pages.{delta_sweep}

-- What the provider keeps.
pub record State : Type 0 where
  pub pending : List Notification
  pub sweep_streams : List StreamRef
  pub internet_ids : Dict Text Text
  pub order : ℕ

abbrev pub new_provider : State
new_provider = record { pending = []; sweep_streams = []; internet_ids = []; order = 0 }

-- `stream in l`
abbrev pub has_stream : StreamRef → List StreamRef → Bool
has_stream stream l = has stream l

unfoldable pub submit : Notification → State → State
submit note s = record s { pending = s.pending ++ (note ∷ []) }

unfoldable pub submit_internet_id : Text → Text → State → State
unfolding Dict.put
submit_internet_id message_id internet_id s = record s {
  internet_ids = Dict.put s.internet_ids message_id internet_id;
}

unfoldable pub request_sweep : StreamRef → State → State
request_sweep stream s = record s { sweep_streams = add_new s.sweep_streams stream }

abbrev or_inbox : Text → Option StreamRef → StreamRef
or_inbox user_id none = record { mailbox = user_id; folder = some (text "inbox") }
or_inbox user_id (some stream) = stream

abbrev resolve : Option (Text → Option StreamRef) → Text → Option StreamRef
resolve none subscription_id = none
resolve (some resolver) subscription_id = resolver subscription_id

module _ (stream_resolver : Option (Text → Option StreamRef)) where
  unfoldable pub stream_for : Notification → StreamRef
  stream_for note = or_inbox note.user_id (resolve stream_resolver note.subscription_id)

  abbrev pub streams_for : List Notification → List StreamRef
  streams_for [] = []
  streams_for (note ∷ notes) = stream_for note ∷ streams_for notes

  unfoldable pub sync_streams : State → List StreamRef
  unfolding stream_for
  sync_streams s = add_all (add_all [] (streams_for s.pending)) s.sweep_streams

-- d[k] = v
abbrev with_field : Json → Text → Json → Json
with_field (object fs) k v = object (fields_of (Dict.put (entries fs) k v))
with_field j k v = j

pub record Setting (X : Type 0) : Type 1 where
  pub client : GraphClient X
  pub stream_resolver : Option (Text → Option StreamRef)
  -- The status of a `GraphError`, none of any other exception.
  pub status_of : Exc → Option ℕ
  pub dumps : Json → Bytes
  pub now : X → Time

module _ {X : Type 0} (P : Setting X) where
  abbrev pub text_or : Json → Text → Text → Result Text
  text_or body key default =
      Results.◌>>=◌ (get_or body key (str default)) λ j. ok (str_of P.client.repr j)

  abbrev with_attachments : Json → Text → Bool → Exec X Json
  with_attachments body user_id false = pure (with_field body (text "_attachments") (array nil))
  with_attachments body user_id true = do
    id ← lift_result P.client (text_or body (text "id") [])
    l ← list_attachments P.client user_id id
    pure (with_field body (text "_attachments") (array (items_of l)))

  unfoldable pub attach : Json → Text → Exec X Json
  unfolding list_attachments Dict.put get_or str_of
  attach body user_id = lift_result P.client (get_or body (text "hasAttachments") null) >>= λ flag.
      with_attachments body user_id (truthy flag)

  abbrev or_gone : Text → Option Json → Exec X (Option Json)
  or_gone user_id none = pure none
  or_gone user_id (some body) = attach body user_id >>= λ b. pure (some b)

  abbrev by_internet_id : Text → Option Text → Exec X (Option Json)
  by_internet_id user_id none = pure none
  by_internet_id user_id (some []) = pure none
  by_internet_id user_id (some (c ∷ s)) =
      get_message_by_internet_id P.client user_id (c ∷ s) >>= or_gone user_id

  abbrev on_refused : Dict Text Text → Notification → Exc → Option ℕ → Exec X (Option Json)
  on_refused ids note exc none = raise exc
  on_refused ids note exc (some status) =
      if status == 404
      then by_internet_id note.user_id (Dict.get ids note.message_id)
      else raise exc

  -- `_fetch_message`, whose state but for the internet ids is the client's.
  unfoldable pub fetch_message : Dict Text Text → Notification → Exec X (Option Json)
  unfolding get_message get_message_by_internet_id attach Dict.get
  fetch_message ids note x =
      let (r, y) = get_message P.client note.user_id note.message_id x in
      elim r [
        | ok body ↦ (attach body note.user_id >>= λ b. pure (some b)) y
        | err exc ↦ on_refused ids note exc (P.status_of exc) y
      ]

  abbrev pub thread_key_of : Json → Result Text
  thread_key_of body =
      Results.◌>>=◌ (get_or body (text "conversationId") (str []))
        λ j. ok (str_of P.client.repr (or_else j (str [])))

  abbrev pub built : StreamRef → Cursor → Bytes → Time → Text → Text → RawMessage
  built stream cursor raw_bytes received_at id thread_key = record {
    provider = text "graph";
    provider_message_id = id;
    stream = stream;
    size_bytes = pos (length raw_bytes);
    received_at = received_at;
    cursor = cursor;
    raw_bytes = raw_bytes;
    thread_key = thread_key;
  }

  -- The message that both `_to_raw` and `sweep` build, with its id and its cursor.
  unfoldable pub raw_message : StreamRef → Text → Cursor → Json → Exec X RawMessage
  unfolding get_or str_of
  raw_message stream default_id cursor body x = (
    Results.◌>>=◌ (text_or body (text "id") default_id) λ id.
        Results.◌>>=◌ (thread_key_of body)
          λ thread_key. ok (built stream cursor (P.dumps body) (P.now x) id thread_key),
    x,
  )

  unfoldable pub to_raw : StreamRef → Notification → ℕ → Json → Exec X RawMessage
  unfolding raw_message show_nat stream_key
  to_raw stream note order body =
      raw_message stream note.message_id
        (record { value = stream_key stream ++ (b'#' ∷ show_nat order); order = pos order }) body
