-- ===== src/Graph/Provider/Restart.antt =====
-- What becomes of the link to resume from that a sweep of src/mailflow/adapters/graph/provider.py yields, in any
-- cursor store, once the process has been started again.
use mailflow.Base.{
  ℕ, suc, ◌+◌, ◌≤ℤ◌, pos, le_ℤ-leb, Text, text_eq_iff, true, some, List, [], ◌∷◌, length, ◌≡◌, ◌∙◌,
  arith,
}
use mailflow.Core.Models.{RawMessage, StreamRef, stream_key, Cursor}
use mailflow.Ports.{CursorStore, same_bookmark}
use mailflow.Ports.Bookmarks.{Commit, apply_commits}
use mailflow.Graph.Provider.{State, Setting}
use mailflow.Graph.Provider.Fetch.{fetch}
use mailflow.Graph.Provider.Feed.{Numbered, fetch-Numbered}

-- The commits of the cursors of a stream's messages.
abbrev pub commits_of : Text → StreamRef → List RawMessage → List Commit
commits_of tenant stream [] = []
commits_of tenant stream (m ∷ l) =
    record { tenant = tenant; stream = stream; cursor = m.cursor } ∷ commits_of tenant stream l

same_bookmark_refl : (t : Text) (r : StreamRef) → same_bookmark t r t r ≡ true
same_bookmark_refl t r = ground (arith, text_eq_iff t t, text_eq_iff (stream_key r) (stream_key r))

module _ (K : CursorStore) (tenant : Text) (stream : StreamRef) where
  commits-behind :
      (l : List RawMessage) (n : ℕ) (old : Cursor) (k : K.State)
      → K.get tenant stream k ≡ some old
      → pos (n + length l) ≤ℤ old.order
      → Numbered n l
      → K.get tenant stream (apply_commits K (commits_of tenant stream l) k) ≡ some old
  unfolding apply_commits
  commits-behind [] n old k held le h = held
  commits-behind (m ∷ l) n old k held le h =
      commits-behind l (suc n) old (K.commit_if_ahead tenant stream m.cursor k).1
        (K.get-commit tenant stream m.cursor k tenant stream
          ∙ rw (
            same_bookmark_refl tenant stream,
            held,
            le_ℤ-leb m.cursor.order old.order (rw h.0 (omega arith)),
          ))
        (omega arith) h.1

  -- A provider that has just been started counts its messages from 0, while a bookmark of an earlier
  -- process has the number that it had there. So as long as a fetch yields no more messages than
  -- that number, no cursor that it yields, the link to resume from of a sweep among them, is taken by
  -- the cursor store, whichever it is: the bookmark stays what it was.
  pub fetch-restarted :
      {X : Type 0} (P : Setting X) (fuel : ℕ) (s : State) (x : X) (old : Cursor) (k : K.State)
      → s.order ≡ 0
      → K.get tenant stream k ≡ some old
      → pos (length (fetch P stream fuel (some old) s x).0.0) ≤ℤ old.order
      → K.get tenant stream
          (apply_commits K (commits_of tenant stream (fetch P stream fuel (some old) s x).0.0) k)
        ≡ some old
  fetch-restarted P fuel s x old k fresh held le =
      commits-behind (fetch P stream fuel (some old) s x).0.0 s.order old k held (omega arith)
        (fetch-Numbered P stream fuel (some old) s x)
