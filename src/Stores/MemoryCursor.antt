-- ===== src/Stores/MemoryCursor.antt =====
-- `InMemoryCursorStore` of src/mailflow/stores/memory.py, as a filling of the port.
use mailflow.Base.{
  Text, Bool, true, false, Option, none, some, leb_ℤ, ◌≡◌, ap, arith, if◌then◌else◌,
}
use mailflow.Dict
use mailflow.Dict.{Dict, get-put}
use mailflow.Core.Models.{StreamRef, Cursor}
use mailflow.Ports.{CursorStore, ahead, is_ahead, same_bookmark}
use mailflow.Stores.Bookmark.{Bookmark, bookmark, bookmark_Eq}

abbrev pub State : Type 0
State = Dict Bookmark Cursor

unfoldable pub get : Text → StreamRef → State → Option Cursor
get tenant stream cursors = Dict.get cursors (bookmark tenant stream)

-- The test on the current cursor, if there is one.
abbrev pub is_stale : Option Cursor → Cursor → Bool
is_stale none cursor = false
is_stale (some current) cursor = leb_ℤ cursor.order current.order

unfoldable pub commit_if_ahead : Text → StreamRef → Cursor → State → Bool × State
commit_if_ahead tenant stream cursor cursors =
    let key = bookmark tenant stream in
    if is_stale (Dict.get cursors key) cursor
    then (false, cursors)
    else (true, Dict.put cursors key cursor)

pub commit-value :
    (t : Text) (r : StreamRef) (c : Cursor) (s : State)
    → (commit_if_ahead t r c s).0 ≡ is_ahead (get t r s) c
unfolding commit_if_ahead get
commit-value t r c s = ground arith

pub get-commit :
    (t : Text) (r : StreamRef) (c : Cursor) (s : State) (t' : Text) (r' : StreamRef)
    → get t' r' (commit_if_ahead t r c s).1
      ≡ (if same_bookmark t r t' r' then some (ahead (get t r s) c) else get t' r' s)
unfolding commit_if_ahead get
get-commit t r c s t' r' = ground (
  arith,
  get-put s (bookmark t r) (bookmark t' r') c,
  bookmark_Eq.beq_iff (bookmark t r) (bookmark t' r'),
)

pub get-same :
    (t : Text) (r : StreamRef) (t' : Text) (r' : StreamRef) (s : State)
    → same_bookmark t r t' r' ≡ true
    → get t r s ≡ get t' r' s
unfolding get
get-same t r t' r' s h = ap (Dict.get s) ((bookmark_Eq.beq_iff (bookmark t r) (bookmark t' r')).0 h)

abbrev pub memory_cursors : CursorStore
memory_cursors = record {
  State = State;
  get = get;
  commit_if_ahead = commit_if_ahead;
  commit-value = commit-value;
  get-commit = get-commit;
  get-same = get-same;
}
