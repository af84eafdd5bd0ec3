-- ===== src/Ports.antt =====
-- src/mailflow/core/ports.py: the stores that the pipeline depends on, as their operations and the
-- laws that every adapter keeps. `done`, `claimed` and `attempts` are what a store says of a key.
pub mod Bookmarks
use mailflow.Base.{
  ℕ, ◌+◌, ◌≡◌, Bool, true, false, Text, text_Eq, Eq, Option, none, some, leb_ℤ, ◌&&◌, if◌then◌else◌,
  text_eq,
}
use mailflow.Core.Models.{StreamRef, stream_key, Cursor}

-- A store whose operations return, as those of stores/memory.py do. One that raises is left out: sqlite3 and psycopg
-- may, and where `mark_done` raises after an emission the pipeline gives the claim back and emits again later.
pub record DedupeStore : Type 1 where
  pub State : Type 0
  pub try_claim : Text → ℕ → State → Bool × State
  pub record_attempt : Text → State → ℕ × State
  pub mark_done : Text → ℕ → State → State
  pub release : Text → State → State
  pub done : State → Text → Bool
  pub claimed : State → Text → Bool
  pub attempts : State → Text → ℕ
  -- A claim is won only for a key that is not done, and always where none holds it.
  pub won-done : (k : Text) (l : ℕ) (s : State) → (try_claim k l s).0 ≡ true → done s k ≡ false
  pub free-won :
      (k : Text) (l : ℕ) (s : State)
      → claimed s k ≡ false
      → done s k ≡ false
      → (try_claim k l s).0 ≡ true
  pub done-try_claim :
      (k : Text) (l : ℕ) (s : State) (j : Text) → done (try_claim k l s).1 j ≡ done s j
  pub attempts-try_claim :
      (k : Text) (l : ℕ) (s : State) (j : Text) → attempts (try_claim k l s).1 j ≡ attempts s j
  -- The counter of attempts lives as long as the key.
  pub record_attempt-value : (k : Text) (s : State) → (record_attempt k s).0 ≡ attempts s k + 1
  pub attempts-record_attempt :
      (k : Text) (s : State) (j : Text)
      → attempts (record_attempt k s).1 j ≡ (if text_eq k j then attempts s j + 1 else attempts s j)
  pub done-record_attempt :
      (k : Text) (s : State) (j : Text) → done (record_attempt k s).1 j ≡ done s j
  pub done-mark_done :
      (k : Text) (t : ℕ) (s : State) (j : Text)
      → done (mark_done k t s) j ≡ (if text_eq k j then true else done s j)
  pub attempts-mark_done :
      (k : Text) (t : ℕ) (s : State) (j : Text) → attempts (mark_done k t s) j ≡ attempts s j
  pub done-release : (k : Text) (s : State) (j : Text) → done (release k s) j ≡ done s j
  pub attempts-release : (k : Text) (s : State) (j : Text) → attempts (release k s) j ≡ attempts s j
  pub claimed-release : (k : Text) (s : State) → done s k ≡ false → claimed (release k s) k ≡ false

-- What a cursor store holds after a commit: the new cursor where it is ahead, the old one else.
abbrev pub ahead : Option Cursor → Cursor → Cursor
ahead none c = c
ahead (some old) c = if leb_ℤ c.order old.order then old else c

abbrev pub is_ahead : Option Cursor → Cursor → Bool
is_ahead none c = true
is_ahead (some old) c = if leb_ℤ c.order old.order then false else true

abbrev pub same_bookmark : Text → StreamRef → Text → StreamRef → Bool
same_bookmark t s t' s' = text_eq t t' && text_eq (stream_key s) (stream_key s')

-- A store whose operations return; a commit that raises, and so ends the run, is left out.
pub record CursorStore : Type 1 where
  pub State : Type 0
  pub get : Text → StreamRef → State → Option Cursor
  pub commit_if_ahead : Text → StreamRef → Cursor → State → Bool × State
  pub commit-value :
      (t : Text) (r : StreamRef) (c : Cursor) (s : State)
      → (commit_if_ahead t r c s).0 ≡ is_ahead (get t r s) c
  pub get-commit :
      (t : Text) (r : StreamRef) (c : Cursor) (s : State) (t' : Text) (r' : StreamRef)
      → get t' r' (commit_if_ahead t r c s).1
        ≡ (if same_bookmark t r t' r' then some (ahead (get t r s) c) else get t' r' s)
  -- A bookmark is told by its tenant and by the key of its stream.
  pub get-same :
      (t : Text) (r : StreamRef) (t' : Text) (r' : StreamRef) (s : State)
      → same_bookmark t r t' r' ≡ true
      → get t r s ≡ get t' r' s
