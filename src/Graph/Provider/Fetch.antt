-- ===== src/Graph/Provider/Fetch.antt =====
-- `GraphProvider.fetch` and `sweep` of src/mailflow/adapters/graph/provider.py. `fuel` bounds the pages of a
-- delta query, which the client follows as long as Graph names a next one.
use mailflow.Base.{
  ℕ, suc, pos, Text, text, starts_with, Option, none, some, List, [], ◌∷◌, ◌++◌, if◌then◌else◌,
}
use mailflow.Exec.{Exc, Result, ok, err}
use mailflow.Dict.{Dict}
use mailflow.Json.{Json}
use mailflow.Core.Models.{RawMessage, StreamRef, Cursor}
use mailflow.Core.Streams.{stream_eq}
use mailflow.Graph.Subscriptions.{folder_or_inbox}
use mailflow.Graph.Notifications.{Notification}
use mailflow.Graph.Client.Pages.{delta_sweep}
use mailflow.Graph.Provider.{
  State, Setting, stream_for, has_stream, attach, fetch_message, raw_message, to_raw,
}

-- How a generator ends: it returns, it raises, or the fuel of its delta query is out.
pub data Ending : Type 0 where
  returned : Ending
  raised : Exc → Ending
  unfinished : Ending

-- What a loop has yielded, how it ended, the notifications that it passed over, and the counter and the
-- world that it leaves.
pub record Walk (X : Type 0) : Type 0 where
  pub yielded : List RawMessage
  pub ending : Ending
  pub remaining : List Notification
  pub order : ℕ
  pub outside : X

abbrev pub stop : {X : Type 0} → Ending → ℕ → X → Walk X
stop ending order x = record {
  yielded = [];
  ending = ending;
  remaining = [];
  order = order;
  outside = x;
}

abbrev pub yield_then : {X : Type 0} → RawMessage → Walk X → Walk X
yield_then m w = record w { yielded = m ∷ w.yielded }

abbrev pub keep_then : {X : Type 0} → Notification → Walk X → Walk X
keep_then note w = record w { remaining = note ∷ w.remaining }

module _ {X : Type 0} (P : Setting X) (stream : StreamRef) where
  abbrev pub yield_message : ℕ → (ℕ → X → Walk X) → Result RawMessage × X → Walk X
  yield_message order rest (err e, x) = stop (raised e) order x
  yield_message order rest (ok m, x) = yield_then m (rest order x)

  -- The body of the loop behind `_fetch_message`; the counter goes up before the message is built.
  abbrev pub on_fetched : Notification → ℕ → (ℕ → X → Walk X) → Result (Option Json) × X → Walk X
  on_fetched note order rest (err e, x) = stop (raised e) order x
  on_fetched note order rest (ok none, x) = rest order x
  on_fetched note order rest (ok (some body), x) =
      yield_message (suc order) rest (to_raw P stream note (suc order) body x)

  -- The loop over the notifications.
  unfoldable pub walk : Dict Text Text → List Notification → ℕ → X → Walk X
  unfolding stream_for fetch_message to_raw
  walk ids [] order x = stop returned order x
  walk ids (note ∷ notes) order x =
      if stream_eq (stream_for P.stream_resolver note) stream
      then on_fetched note order (walk ids notes) (fetch_message P ids note x)
      else keep_then note (walk ids notes order x)

  abbrev pub on_attached : Text → ℕ → (ℕ → X → Walk X) → Result Json × X → Walk X
  on_attached new_delta order rest (err e, x) = stop (raised e) order x
  on_attached new_delta order rest (ok body, x) =
      yield_message (suc order) rest
        (raw_message P stream [] (record { value = new_delta; order = pos (suc order) }) body x)

  -- The loop over the messages of a delta query.
  unfoldable pub walk_messages : Text → List Json → ℕ → X → Walk X
  unfolding attach raw_message
  walk_messages new_delta [] order x = stop returned order x
  walk_messages new_delta (body ∷ bodies) order x =
      on_attached new_delta order (walk_messages new_delta bodies) (attach P body stream.mailbox x)

  -- A cursor that is a url is a link to resume from.
  abbrev delta_link_of : Option Cursor → Option Text
  delta_link_of none = none
  delta_link_of (some cursor) =
      if starts_with (text "http") cursor.value then some cursor.value else none

  abbrev pub on_swept : ℕ → Result (Option (List Json × Text)) × X → Walk X
  on_swept order (err e, x) = stop (raised e) order x
  on_swept order (ok none, x) = stop unfinished order x
  on_swept order (ok (some (messages, new_delta)), x) = walk_messages new_delta messages order x

  unfoldable pub sweep : ℕ → Option Cursor → ℕ → X → Walk X
  unfolding delta_sweep walk_messages starts_with
  sweep fuel cursor order x = on_swept order (
      delta_sweep P.client fuel stream.mailbox (folder_or_inbox stream.folder)
        (delta_link_of cursor) x)

  -- l.remove(stream)
  unfoldable pub remove_stream : List StreamRef → List StreamRef
  remove_stream [] = []
  remove_stream (s ∷ l) = if stream_eq s stream then l else s ∷ remove_stream l

  -- What was yielded before a sweep, and then the sweep.
  abbrev pub swept : List RawMessage → State → Walk X → (List RawMessage × Ending) × State × X
  swept yielded s w = ((yielded ++ w.yielded, w.ending), record s { order = w.order }, w.outside)

  abbrev pub after_pending :
      (ℕ → X → Walk X) → State → Walk X → Ending → (List RawMessage × Ending) × State × X
  after_pending sweeping s w returned =
      if has_stream stream s.sweep_streams
      then swept w.yielded
          (record s { pending = w.remaining; sweep_streams = remove_stream s.sweep_streams })
          (sweeping w.order w.outside)
      else ((w.yielded, returned), record s { pending = w.remaining; order = w.order }, w.outside)
  after_pending sweeping s w ending = ((w.yielded, ending), record s { order = w.order }, w.outside)

  unfoldable pub fetch : ℕ → Option Cursor → State → X → (List RawMessage × Ending) × State × X
  unfolding walk sweep remove_stream
  fetch fuel cursor s x =
      let w = walk s.internet_ids s.pending s.order x in
      after_pending (sweep fuel cursor) s w w.ending
