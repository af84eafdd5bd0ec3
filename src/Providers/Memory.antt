-- ===== src/Providers/Memory.antt =====
-- `MemoryProvider` of src/mailflow/providers/memory.py.
pub mod Refetch
use mailflow.Base.{
  ℕ, suc, ◌+◌, ℤ, pos, leb_ℤ, Text, text, show_nat, Option, none, some, List, [], ◌∷◌, ◌++◌, length,
  if◌then◌else◌,
}
use mailflow.Dict
use mailflow.Dict.{Dict, or_default}
use mailflow.Core.Models.{RawMessage, StreamRef, stream_key, Cursor, Bytes, Time}
use mailflow.Core.Streams.{stream_Eq}

pub record SeedEmail : Type 0 where
  pub provider_message_id : Text
  pub raw : Bytes
  pub received_at : Option Time

abbrev pub Seed : Type 0
Seed = Dict StreamRef (List SeedEmail)

-- datetime(2026, 6, 9, tzinfo=timezone.utc), in seconds since 1970
abbrev pub default_received_at : Time
default_received_at = 1780963200

unfoldable pub to_message : StreamRef → ℕ → SeedEmail → RawMessage
to_message stream index item = record {
  provider = text "memory";
  provider_message_id = item.provider_message_id;
  stream = stream;
  size_bytes = pos (length item.raw);
  received_at = or_default default_received_at item.received_at;
  cursor = record { value = stream_key stream ++ (b'#' ∷ show_nat index); order = pos index };
  raw_bytes = item.raw;
  thread_key = [];
}

abbrev pub start_of : Option Cursor → ℤ
start_of none = pos 0
start_of (some cursor) = cursor.order

-- The loop over the enumerated items of a stream.
unfoldable pub yield_from : StreamRef → ℤ → ℕ → List SeedEmail → List RawMessage
yield_from stream start index [] = []
yield_from stream start index (item ∷ items) =
    let rest = yield_from stream start (suc index) items in
    if leb_ℤ (pos index) start then rest else to_message stream index item ∷ rest

unfoldable pub fetch : Seed → StreamRef → Option Cursor → List RawMessage
unfolding yield_from
fetch seed stream cursor =
    yield_from stream (start_of cursor) 1 (or_default [] (Dict.get seed stream))

unfoldable pub sync_streams : Seed → List StreamRef
sync_streams [] = []
sync_streams ((stream, items) ∷ rest) = stream ∷ sync_streams rest
