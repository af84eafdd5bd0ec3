-- ===== src/Gmail/Provider.antt =====
-- `GmailProvider` of src/mailflow/adapters/gmail/provider.py, over the client and a cursor store. `int` and the clock
-- are parameters. A generator is what it yields, how it ends, and the state that it leaves, as
-- the pipeline reads it to its end; `fuel` bounds the pages of the history.
pub mod Laws
use mailflow.Base.{
  ℕ, ◌==◌, ◌%◌, ◌-◌, Bool, true, false, not, ℤ, pos, Text, text, text_Eq, text_eq, is_ascii, Option,
  none, some, List, [], ◌∷◌, ◌++◌, length, if◌then◌else◌,
}
use mailflow.Exec.{Exec, Exc, permanent, ErrorKind, Result, ok, err, pure, raise, ◌>>=◌, ◌>>◌}
use mailflow.Exec.Results
use mailflow.Dict
use mailflow.Dict.{Dict, or_default}
use mailflow.Base64.{b64decode}
use mailflow.Json.{Json, int, str, get_or, or_else, str_of}
use mailflow.Core.Models.{RawMessage, StreamRef, Cursor, Bytes, Time}
use mailflow.Ports.{CursorStore}
use mailflow.Gmail.Client.{GmailClient, Slots, get_profile, get_message_raw}
use mailflow.Gmail.Client.History.{history_message_ids}

-- "=" * (-len(s) % 4)
unfoldable pub padding : ℕ → Text
padding n =
    if n % 4 == 1
    then text "==="
    else if n % 4 == 2
    then text "=="
    else if n % 4 == 3
    then text "="
    else []

-- The alphabet of urls, read into the standard one.
unfoldable pub from_url : Text → Text
from_url [] = []
from_url (c ∷ s) = (if c == b'-' then b'+' else if c == b'_' then b'/' else c) ∷ from_url s

-- The text of the decoder's own error is left out.
abbrev pub bad_raw : Exc
bad_raw = record {
  kind = permanent;
  class_name = text "PermanentError";
  message = text "invalid base64 in gmail raw payload: ";
}

abbrev or_bad : Option Bytes → Result Bytes
or_bad none = err bad_raw
or_bad (some raw) = ok raw

-- `_b64url_decode`
unfoldable pub b64url_decode : Text → Result Bytes
unfolding padding from_url is_ascii b64decode
b64url_decode s =
    let padded = s ++ padding (length s) in
    if is_ascii padded then or_bad (b64decode (from_url padded)) else err bad_raw

-- How a generator ends: it returns, it raises, or the fuel of its history is out.
pub data Ending : Type 0 where
  returned : Ending
  raised : Exc → Ending
  unfinished : Ending

abbrev pub is_permanent : ErrorKind → Bool
is_permanent permanent = true
is_permanent _ = false

abbrev pub is_stale : Exc → Bool
is_stale e = text_eq e.class_name (text "StaleHistoryError")

pub record Setting (X : Type 0) : Type 1 where
  pub client : GmailClient X
  pub label_id : Option Text
  pub has_cursor_store : Bool
  pub tenant : Text
  -- The status of a `GmailError`, none of any other exception.
  pub status_of : Exc → Option ℕ
  -- int(text) and int(json)
  pub parse_int : Text → Result ℤ
  pub int_of : Json → Result ℤ
  pub now : Slots X → Time

module _ {X : Type 0} (K : CursorStore) (P : Setting X) where
  -- The provider's inbox, and what it reaches.
  pub record State : Type 0 where
    pub outside : Slots X
    pub cursors : K.State
    pub pending : Dict Text Text

  unfoldable pub submit : Text → Text → State → State
  unfolding Dict.put
  submit email_address history_id s = record s {
    pending = Dict.put s.pending email_address history_id;
  }

  abbrev streams_of : Dict Text Text → List StreamRef
  streams_of [] = []
  streams_of ((mailbox, id) ∷ d) = record { mailbox = mailbox; folder = none } ∷ streams_of d

  unfoldable pub sync_streams : State → List StreamRef
  sync_streams s = streams_of s.pending

  abbrev pub lift : {A : Type 0} → Exec (Slots X) A → Exec State A
  lift m s = let (r, x) = m s.outside in (r, record s { outside = x })

  abbrev pub lift_result : {A : Type 0} → Result A → Exec State A
  lift_result r s = (r, s)

  abbrev pub seed : StreamRef → Text → Exec State (Unit {0})
  seed stream [] = pure tt
  seed stream (c ∷ t) = lift_result (P.parse_int (c ∷ t)) >>= λ order s. (
    ok tt,
    record s {
      cursors =
          (K.commit_if_ahead P.tenant stream (record { value = c ∷ t; order = order }) s.cursors).1;
    },
  )

  -- `_reseed`
  unfoldable pub reseed : StreamRef → Exec State (Unit {0})
  unfolding get_profile get_or str_of
  reseed stream =
      if P.has_cursor_store
      then (lift (get_profile P.client stream.mailbox) >>= λ profile.
          lift_result (get_or profile (text "historyId") (str [])) >>= λ id.
          seed stream (str_of P.client.repr id))
      else pure tt

  unfoldable pub pop : StreamRef → State → State
  unfolding Dict.remove
  pop stream s = record s { pending = Dict.remove s.pending stream.mailbox }

  abbrev fields_of_raw : Json → Result (Json × Bytes)
  fields_of_raw body =
      Results.◌>>=◌ (get_or body (text "raw") (str []))
        λ raw. Results.◌>>=◌ (b64url_decode (str_of P.client.repr raw)) λ bytes. ok (body, bytes)

  -- The `try` of the loop: the message's JSON and its bytes.
  unfoldable pub fetch_raw : StreamRef → Text → Exec (Slots X) (Json × Bytes)
  unfolding get_message_raw b64url_decode get_or str_of
  fetch_raw stream message_id x =
      let (r, y) = get_message_raw P.client stream.mailbox message_id x in
      (Results.◌>>=◌ r fields_of_raw, y)

  abbrev pub built : StreamRef → Cursor → Text → Bytes → Time → ℤ → Text → RawMessage
  built stream cursor message_id raw received_at size thread_key = record {
    provider = text "gmail";
    provider_message_id = message_id;
    stream = stream;
    size_bytes = size;
    received_at = received_at;
    cursor = cursor;
    raw_bytes = raw;
    thread_key = thread_key;
  }

  abbrev pub size_of : Json → Bytes → Result ℤ
  size_of body raw =
      Results.◌>>=◌ (get_or body (text "sizeEstimate") (int (pos (length raw))))
        λ size. P.int_of (or_else size (int (pos (length raw))))

  unfoldable pub to_message : StreamRef → Cursor → Text → Json × Bytes → Slots X → Result RawMessage
  unfolding get_or str_of
  to_message stream cursor message_id (body, raw) x = Results.◌>>=◌ (size_of body raw) λ size.
      Results.◌>>=◌ (get_or body (text "threadId") (str [])) λ thread.
        ok (built stream cursor message_id raw (P.now x) size (str_of P.client.repr thread))

  abbrev pub Yielded : Type 0
  Yielded = (List RawMessage × Ending) × Slots X

  abbrev pub yield_then : RawMessage → Yielded → Yielded
  yield_then m ((l, e), x) = ((m ∷ l, e), x)

  abbrev pub on_message : (Slots X → Yielded) → Result RawMessage → Slots X → Yielded
  on_message rest (err e) x = (([], raised e), x)
  on_message rest (ok m) x = yield_then m (rest x)

  -- The loop's body behind its `try`: a permanent error passes the message over.
  abbrev pub on_raw :
      StreamRef → Cursor → Text → (Slots X → Yielded) → Result (Json × Bytes) × Slots X → Yielded
  on_raw stream cursor message_id rest (err e, x) =
      if is_permanent e.kind then rest x else (([], raised e), x)
  on_raw stream cursor message_id rest (ok b, x) =
      on_message rest (to_message stream cursor message_id b x) x

  -- The loop over the message ids.
  unfoldable pub yield_ids : StreamRef → Cursor → List Text → Slots X → Yielded
  unfolding fetch_raw to_message
  yield_ids stream cursor [] x = (([], returned), x)
  yield_ids stream cursor (message_id ∷ ids) x =
      on_raw stream cursor message_id (yield_ids stream cursor ids) (fetch_raw stream message_id x)

  -- self._pending.pop(..) at the end, which an exception does not reach.
  abbrev pub finish : StreamRef → State → Yielded → (List RawMessage × Ending) × State
  finish stream s ((l, returned), x) = ((l, returned), pop stream (record s { outside = x }))
  finish stream s ((l, e), x) = ((l, e), record s { outside = x })

  abbrev pub quietly : StreamRef → Result (Unit {0}) × State → (List RawMessage × Ending) × State
  quietly stream (ok u, s) = (([], returned), pop stream s)
  quietly stream (err e, s) = (([], raised e), s)

  abbrev pub with_order :
      StreamRef → Text → List Text → State → Result ℤ → (List RawMessage × Ending) × State
  with_order stream latest ids s (err e) = (([], raised e), s)
  with_order stream latest ids s (ok order) =
      finish stream s (yield_ids stream (record { value = latest; order = order }) ids s.outside)

  abbrev pub on_history :
      StreamRef
      → State
      → Result (Option (List Text × Text)) × Slots X
      → (List RawMessage × Ending) × State
  on_history stream s (err e, x) =
      let t = record s { outside = x } in
      if is_stale e then quietly stream (reseed stream t) else (([], raised e), t)
  on_history stream s (ok none, x) = (([], unfinished), record s { outside = x })
  on_history stream s (ok (some (ids, latest)), x) =
      with_order stream latest ids (record s { outside = x }) (P.parse_int latest)

  abbrev pub start_of : Option Cursor → Option Text → Text
  start_of none none = []
  start_of none (some id) = id
  start_of (some cursor) id = cursor.value

  abbrev pub from_start : ℕ → StreamRef → State → Text → (List RawMessage × Ending) × State
  from_start fuel stream s [] = (([], returned), pop stream s)
  from_start fuel stream s (c ∷ t) =
      on_history stream s
        (history_message_ids P.client P.status_of fuel stream.mailbox (c ∷ t) P.label_id s.outside)

  unfoldable pub fetch : ℕ → StreamRef → Option Cursor → State → (List RawMessage × Ending) × State
  unfolding history_message_ids reseed pop yield_ids Dict.get
  fetch fuel stream cursor s =
      from_start fuel stream s (start_of cursor (Dict.get s.pending stream.mailbox))
