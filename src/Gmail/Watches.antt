-- ===== src/Gmail/Watches.antt =====
-- src/mailflow/adapters/gmail/watch.py and bootstrap.py: the watches, the cursors that they seed, and the sweep
-- over the mailboxes. The client's calls are those of `GmailClient`; the pipeline's run and Python's `int`
-- are parameters.
use mailflow.Base.{
  ℤ, Bool, true, false, ◌&&◌, not, leb_ℤ, pos, Text, text, Option, none, some, is_some, List, [],
  ◌∷◌, is_empty, Bool-cases, inl, inr, ◌≡◌, ◌≢◌, refl, sym, ◌∙◌, if◌then◌else◌,
}
use mailflow.Exec.Results
use mailflow.Exec.{Exec, Result, ok, err, pure, continue, ◌>>=◌, ◌>>◌}
use mailflow.Json.{Json, str, get_or, str_of}
use mailflow.Core.Models.{StreamRef, Cursor}
use mailflow.Ports.{CursorStore, same_bookmark}
use mailflow.Gmail.Client.{GmailClient, Slots, watch, stop}

pub record WatchHandle : Type 0 where
  pub mailbox : Text
  pub history_id : Text
  pub expiration : Text

abbrev pub whole_mailbox : Text → StreamRef
whole_mailbox mailbox = record { mailbox = mailbox; folder = none }

pub record WatchManager (X : Type 0) : Type 0 where
  pub client : GmailClient X
  pub label_ids : List Text
  pub topic_path : Text

module _ {X : Type 0} (m : WatchManager X) where
  abbrev text_field : Json → Text → Exec (Slots X) Text
  text_field out key s =
      (Results.◌>>=◌ (get_or out key (str [])) (λ j. ok (str_of m.client.repr j)), s)

  unfoldable pub ensure_watch : StreamRef → Exec (Slots X) WatchHandle
  unfolding watch get_or str_of
  ensure_watch stream = do
    out ← watch m.client stream.mailbox m.topic_path m.label_ids
    history_id ← text_field out (text "historyId")
    expiration ← text_field out (text "expiration")
    pure (record { mailbox = stream.mailbox; history_id = history_id; expiration = expiration })

  unfoldable pub renew_watch : WatchHandle → Exec (Slots X) WatchHandle
  unfolding ensure_watch
  renew_watch handle = ensure_watch (whole_mailbox handle.mailbox)

  unfoldable pub stop_watch : WatchHandle → Exec (Slots X) (Unit {0})
  unfolding stop
  stop_watch handle = stop m.client handle.mailbox

  -- [watch_manager.renew_watch(h) for h in handles]
  unfoldable pub renew_watches : List WatchHandle → Exec (Slots X) (List WatchHandle)
  unfolding renew_watch
  renew_watches [] = pure []
  renew_watches (h ∷ handles) = renew_watch h >>= λ n. renew_watches handles >>= λ ns. pure (n ∷ ns)

unfoldable pub should_schedule_renew : Bool → ℤ → List WatchHandle → Bool
should_schedule_renew start_watch watch_renew_seconds handles =
    start_watch && not (leb_ℤ watch_renew_seconds (pos 0)) && not (is_empty handles)

none≢some : {A : Type 0} {a : A} → none ≢ some a
none≢some h = cc

module _ {X : Type 0} (K : CursorStore) (m : WatchManager X) (parse_int : Text → Result ℤ)
    (tenant : Text) where
  -- The client and the cursor store.
  pub record State : Type 0 where
    pub outside : Slots X
    pub cursors : K.State

  abbrev lift : {A : Type 0} → Exec (Slots X) A → Exec State A
  lift f s = let (r, x) = f s.outside in (r, record s { outside = x })

  abbrev commit : StreamRef → Text → Result ℤ → Exec State (Unit {0})
  commit stream history_id (err e) s = (err e, s)
  commit stream history_id (ok order) s = (
    ok tt,
    record s {
      cursors =
          (K.commit_if_ahead tenant stream (record { value = history_id; order = order })
            s.cursors).1;
    },
  )

  -- The cursor is seeded only where the stream has none.
  unfoldable pub seed_cursor : StreamRef → WatchHandle → Exec State (Unit {0})
  seed_cursor stream handle s =
      if not (is_empty handle.history_id) && not (is_some (K.get tenant stream s.cursors))
      then commit stream handle.history_id (parse_int handle.history_id) s
      else (ok tt, s)

  unfoldable pub bootstrap_watches : List Text → Exec State (List WatchHandle)
  unfolding ensure_watch seed_cursor
  bootstrap_watches [] = pure []
  bootstrap_watches (mailbox ∷ mailboxes) = do
    handle ← lift (ensure_watch m (whole_mailbox mailbox))
    seed_cursor (whole_mailbox mailbox) handle
    handles ← bootstrap_watches mailboxes
    pure (handle ∷ handles)

  -- The bookmark of a stream is there, and is what it was.
  abbrev Holds : StreamRef → Cursor → State → Type 0
  Holds stream c s = K.get tenant stream s.cursors ≡ some c

  seed_cursor-Holds :
      (stream : StreamRef) (c : Cursor) (other : StreamRef) (handle : WatchHandle) (s : State)
      → Holds stream c s
      → Holds stream c (seed_cursor other handle s).1
  unfolding seed_cursor
  seed_cursor-Holds stream c other handle s h = by_test (is_empty handle.history_id)
    where
      committed :
          (r : Result ℤ)
          → K.get tenant other s.cursors ≡ none
          → Holds stream c (commit other handle.history_id r s).1
      committed (err e) missing = h
      committed (ok n) missing = elim (Bool-cases (same_bookmark tenant other tenant stream)) [
        | inl same ↦
            absurd
              (none≢some (sym missing ∙ (K.get-same tenant other tenant stream s.cursors same ∙ h)))
        | inr different ↦
            K.get-commit tenant other (record { value = handle.history_id; order = n }) s.cursors
              tenant stream
            ∙ rw different h
      ]

      by_bookmark :
          (o : Option Cursor)
          → K.get tenant other s.cursors ≡ o
          → Holds stream c (
              (if not (is_some o)
                then commit other handle.history_id (parse_int handle.history_id) s
                else (ok tt, s)).1)
      by_bookmark none e = committed (parse_int handle.history_id) e
      by_bookmark (some d) e = h

      by_test :
          (b : Bool)
          → Holds stream c (
              (if not b && not (is_some (K.get tenant other s.cursors))
                then commit other handle.history_id (parse_int handle.history_id) s
                else (ok tt, s)).1)
      by_test true = h
      by_test false = by_bookmark (K.get tenant other s.cursors) refl

  -- A restart does not touch a bookmark that is there: after the watches of any mailboxes were set up,
  -- and also where that raises, a stream that had a bookmark has the same one.
  pub bootstrap_watches-Holds :
      (stream : StreamRef) (c : Cursor) (mailboxes : List Text) (s : State)
      → K.get tenant stream s.cursors ≡ some c
      → K.get tenant stream (bootstrap_watches mailboxes s).1.cursors ≡ some c
  unfolding bootstrap_watches
  bootstrap_watches-Holds stream c [] s h = h
  bootstrap_watches-Holds stream c (mailbox ∷ mailboxes) s h =
      watched (ensure_watch m (whole_mailbox mailbox) s.outside)
        (λ t k. bootstrap_watches-Holds stream c mailboxes t k)
    where
      rest : WatchHandle → Exec State (List WatchHandle)
      rest handle = bootstrap_watches mailboxes >>= λ handles. pure (handle ∷ handles)

      others :
          (p : Result (List WatchHandle) × State) (handle : WatchHandle)
          → Holds stream c p.1
          → Holds stream c (continue p λ handles. pure (handle ∷ handles)).1
      others (ok l, t) handle k = k
      others (err e, t) handle k = k

      seeded :
          (p : Result (Unit {0}) × State) (handle : WatchHandle)
          → Holds stream c p.1
          → ((t : State) → Holds stream c t → Holds stream c (bootstrap_watches mailboxes t).1)
          → Holds stream c (continue p λ _. rest handle).1
      seeded (ok u, t) handle k ih = others (bootstrap_watches mailboxes t) handle (ih t k)
      seeded (err e, t) handle k ih = k

      watched :
          (p : Result WatchHandle × Slots X)
          → ((t : State) → Holds stream c t → Holds stream c (bootstrap_watches mailboxes t).1)
          → Holds stream c
              (continue
                (p.0, record s { outside = p.1 })
                λ handle. seed_cursor (whole_mailbox mailbox) handle >>= λ _. rest handle).1
      watched (err e, x) ih = h
      watched (ok handle, x) ih =
          seeded (seed_cursor (whole_mailbox mailbox) handle (record s { outside = x })) handle
            (seed_cursor-Holds stream c (whole_mailbox mailbox) handle (record s { outside = x }) h)
            ih
