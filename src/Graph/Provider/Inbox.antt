-- ===== src/Graph/Provider/Inbox.antt =====
-- What `GraphProvider` of src/mailflow/adapters/graph/provider.py keeps: its inbox, and the sweeps that were asked for.
use mailflow.Base.{
  ℕ, suc, true, Text, Option, none, some, List, [], ◌∷◌, Bool-cases, inl, inr, ◌≡◌, ◌≢◌, refl, ap,
  arith, if◌then◌else◌,
}
use mailflow.Exec.{Exc, Result, ok, err}
use mailflow.Dict.{Dict}
use mailflow.Json.{Json}
use mailflow.Core.Models.{RawMessage, StreamRef, Cursor}
use mailflow.Core.Streams.{stream_eq}
use mailflow.Graph.Notifications.{Notification}
use mailflow.Graph.Provider.{State, Setting, stream_for, has_stream, fetch_message, to_raw}
use mailflow.Graph.Provider.Fetch.{
  Ending, returned, raised, unfinished, Walk, yield_message, on_fetched, walk, sweep, fetch,
  after_pending, remove_stream,
}

module _ {X : Type 0} (P : Setting X) (stream : StreamRef) where
  -- The notifications of other streams.
  pub others : List Notification → List Notification
  others [] = []
  others (note ∷ notes) =
      if stream_eq (stream_for P.stream_resolver note) stream
      then others notes
      else note ∷ others notes

  -- What is in the inbox after a loop over it: it returned, and the notifications of other streams are
  -- left, or it raised.
  walk-others :
      (ids : Dict Text Text) (notes : List Notification) (n : ℕ) (x : X)
      → (walk P stream ids notes n x).ending ≡ returned
      → (walk P stream ids notes n x).remaining ≡ others notes
  unfolding walk others
  walk-others ids [] n x h = refl
  walk-others ids (note ∷ notes) n x h =
      elim (Bool-cases (stream_eq (stream_for P.stream_resolver note) stream)) [
        | inl own ↦
            rw own (
              fetched (fetch_message P ids note x) (λ m y. walk-others ids notes m y) (rw own at h))
        | inr other ↦ rw other (ap (◌∷◌ note) (walk-others ids notes n x (rw other at h)))
      ]
    where
      built_then :
          (m : ℕ) (p : Result RawMessage × X)
          → ((m : ℕ) (y : X)
              → (walk P stream ids notes m y).ending ≡ returned
              → (walk P stream ids notes m y).remaining ≡ others notes)
          → (yield_message P stream m (walk P stream ids notes) p).ending ≡ returned
          → (yield_message P stream m (walk P stream ids notes) p).remaining ≡ others notes
      built_then m (err e, y) ih h = ground arith
      built_then m (ok msg, y) ih h = ih m y h

      fetched :
          (p : Result (Option Json) × X)
          → ((m : ℕ) (y : X)
              → (walk P stream ids notes m y).ending ≡ returned
              → (walk P stream ids notes m y).remaining ≡ others notes)
          → (on_fetched P stream note n (walk P stream ids notes) p).ending ≡ returned
          → (on_fetched P stream note n (walk P stream ids notes) p).remaining ≡ others notes
      fetched (err e, y) ih h = ground arith
      fetched (ok none, y) ih h = ih n y h
      fetched (ok (some body), y) ih h =
          built_then (suc n) (to_raw P stream note (suc n) body y) ih h

  -- What a fetch leaves in the inbox: the notifications of other streams, in their order, where
  -- the loop over the inbox returns, and everything, in its order, where it raises.
  pub fetch-pending :
      (fuel : ℕ) (cursor : Option Cursor) (s : State) (x : X)
      → ((walk P stream s.internet_ids s.pending s.order x).ending ≡ returned
          → (fetch P stream fuel cursor s x).1.pending ≡ others s.pending)
        × ((walk P stream s.internet_ids s.pending s.order x).ending ≢ returned
            → ((fetch P stream fuel cursor s x).1.pending ≡ s.pending)
              × ((fetch P stream fuel cursor s x).1.sweep_streams ≡ s.sweep_streams))
  unfolding fetch
  fetch-pending fuel cursor s x =
      let w = walk P stream s.internet_ids s.pending s.order x in
      go w w.ending (walk-others s.internet_ids s.pending s.order x)
    where
      go :
          (w : Walk X) (ending : Ending)
          → (ending ≡ returned → w.remaining ≡ others s.pending)
          → (ending ≡ returned
              → (after_pending P stream (sweep P stream fuel cursor) s w ending).1.pending
                ≡ others s.pending)
            × (ending ≢ returned
                → ((after_pending P stream (sweep P stream fuel cursor) s w ending).1.pending
                    ≡ s.pending)
                  × ((after_pending P stream
                        (sweep P stream fuel cursor)
                        s
                        w
                        ending).1.sweep_streams
                      ≡ s.sweep_streams))
      go w returned h = (λ _. ground (arith, h refl), λ n. absurd (n refl))
      go w (raised e) h = (λ r. ground arith, λ n. (refl, refl))
      go w unfinished h = (λ r. ground arith, λ n. (refl, refl))

  -- A sweep that was asked for is forgotten before it is done: where the loop over the inbox returns, and
  -- the delta query then raises, the fetch raises and the stream no longer waits for a sweep.
  pub fetch-sweep_lost :
      (fuel : ℕ) (cursor : Option Cursor) (s : State) (x : X) (e : Exc)
      → (walk P stream s.internet_ids s.pending s.order x).ending ≡ returned
      → has_stream stream s.sweep_streams ≡ true
      → (sweep P stream fuel cursor
          (walk P stream s.internet_ids s.pending s.order x).order
          (walk P stream s.internet_ids s.pending s.order x).outside).ending
        ≡ raised e
      → ((fetch P stream fuel cursor s x).0.1 ≡ raised e)
        × ((fetch P stream fuel cursor s x).1.sweep_streams
            ≡ remove_stream P stream s.sweep_streams)
  unfolding fetch
  fetch-sweep_lost fuel cursor s x e h asked failed = rw (h, asked) (failed, refl)
