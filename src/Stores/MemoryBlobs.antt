-- ===== src/Stores/MemoryBlobs.antt =====
-- `InMemoryBlobStore` of src/mailflow/stores/memory.py: a dict by reference.
use mailflow.Base.{
  Text, text_eq, text_Eq, text_eq_iff, Option, none, some, List, [], ◌∷◌, ◌++◌, ◌≡◌, arith,
  if◌then◌else◌,
}
use mailflow.Dict
use mailflow.Dict.{Dict, or_default, get-put}
use mailflow.Core.Models.{Bytes}

abbrev pub State : Type 0
State = Dict Text Bytes

-- b"".join(chunks)
unfoldable pub join : List Bytes → Bytes
join [] = []
join (c ∷ cs) = c ++ join cs

abbrev pub put_new : Text → List Bytes → Option Bytes → State → State
put_new ref chunks none blobs = Dict.put blobs ref (join chunks)
put_new ref chunks (some b) blobs = blobs

unfoldable pub put_stream : Text → List Bytes → State → Text × State
put_stream ref chunks blobs = (ref, put_new ref chunks (Dict.get blobs ref) blobs)

-- `open`, none where it raises KeyError.
unfoldable pub open_blob : Text → State → Option Bytes
open_blob ref blobs = Dict.get blobs ref

-- What was put under a reference first is what is read from it ever after: a later put under the same
-- reference changes nothing, and one under another reference leaves it alone.
open_blob-put_stream :
    (ref : Text) (chunks : List Bytes) (blobs : State) (other : Text)
    → open_blob other (put_stream ref chunks blobs).1 ≡ (
        if text_eq ref other
        then some (or_default (join chunks) (open_blob ref blobs))
        else open_blob other blobs)
unfolding open_blob put_stream
open_blob-put_stream ref chunks blobs other =
    ground (arith, get-put blobs ref other (join chunks), text_eq_iff ref other)
