-- ===== src/Stores/SqliteCursor.antt =====
-- `SqliteCursorStore` of src/mailflow/stores/sqlite.py: the table `cursors` as its rows by key, as a
-- filling of the port. The lock makes each method one step.
use mailflow.Base.{
  Text, ℤ, Bool, true, false, Option, none, some, leb_ℤ, ◌≡◌, ap, arith, if◌then◌else◌,
}
use mailflow.Dict
use mailflow.Dict.{Dict, get-put}
use mailflow.Core.Models.{StreamRef, Cursor}
use mailflow.Ports.{CursorStore, ahead, is_ahead, same_bookmark}
use mailflow.Stores.Bookmark.{Bookmark, bookmark, bookmark_Eq}

-- The columns (value, order_n).
pub record Row : Type 0 where
  pub value : Text
  pub order_n : ℤ

abbrev pub State : Type 0
State = Dict Bookmark Row

abbrev pub to_cursor : Option Row → Option Cursor
to_cursor none = none
to_cursor (some row) = some (record { value = row.value; order = row.order_n })

-- SELECT value, order_n FROM cursors WHERE tenant = ? AND stream = ?
unfoldable pub get : Text → StreamRef → State → Option Cursor
get tenant stream rows = to_cursor (Dict.get rows (bookmark tenant stream))

abbrev pub is_stale : Option Row → Cursor → Bool
is_stale none cursor = false
is_stale (some row) cursor = leb_ℤ cursor.order row.order_n

-- INSERT .. ON CONFLICT(tenant, stream) DO UPDATE
abbrev pub upsert : Bookmark → Cursor → State → State
upsert key cursor rows = Dict.put rows key (record { value = cursor.value; order_n = cursor.order })

unfoldable pub commit_if_ahead : Text → StreamRef → Cursor → State → Bool × State
commit_if_ahead tenant stream cursor rows =
    let key = bookmark tenant stream in
    if is_stale (Dict.get rows key) cursor then (false, rows) else (true, upsert key cursor rows)

pub commit-value :
    (t : Text) (r : StreamRef) (c : Cursor) (s : State)
    → (commit_if_ahead t r c s).0 ≡ is_ahead (get t r s) c
unfolding commit_if_ahead get
commit-value t r c s = ground arith

pub get-commit :
    (t : Text) (r : StreamRef) (c : Cursor) (s : State) (t' : Text) (r' : StreamRef)
    → get t' r' (commit_if_ahead t r c s).1
      ≡ (if same_bookmark t r t' r' then some (ahead (get t r s) c) else get t' r' s)
unfolding commit_if_ahead get
get-commit t r c s t' r' = ground (
  arith,
  get-put s (bookmark t r) (bookmark t' r') (record { value = c.value; order_n = c.order }),
  bookmark_Eq.beq_iff (bookmark t r) (bookmark t' r'),
)

pub get-same :
    (t : Text) (r : StreamRef) (t' : Text) (r' : StreamRef) (s : State)
    → same_bookmark t r t' r' ≡ true
    → get t r s ≡ get t' r' s
unfolding get
get-same t r t' r' s h =
    ap (λ k. to_cursor (Dict.get s k)) ((bookmark_Eq.beq_iff (bookmark t r) (bookmark t' r')).0 h)

abbrev pub sqlite_cursors : CursorStore
sqlite_cursors = record {
  State = State;
  get = get;
  commit_if_ahead = commit_if_ahead;
  commit-value = commit-value;
  get-commit = get-commit;
  get-same = get-same;
}
