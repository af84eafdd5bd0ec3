-- ===== src/Gmail/Provider/Laws.antt =====
-- What `GmailProvider.fetch` of src/mailflow/adapters/gmail/provider.py yields and keeps.
use mailflow.Base.{
  ℕ, true, false, ℤ, Text, text, text_Eq, Option, none, some, List, [], ◌∷◌, Bool-cases, inl, inr,
  ◌⊎◌, ◌≡◌, refl, ap, ◌∙◌, Bool, if◌then◌else◌,
}
use mailflow.Exec
use mailflow.Exec.{Exec, Exc, Result, ok, err, pure, continue}
use mailflow.Exec.Results.{◌>>=◌}
use mailflow.Dict
use mailflow.Json.{Json, str, get_or, str_of}
use mailflow.Core.Models.{RawMessage, StreamRef, Cursor, Bytes}
use mailflow.Ports.{CursorStore}
use mailflow.Pipeline.SharedCursor.{Shared}
use mailflow.Gmail.Client.{Slots, get_profile}
use mailflow.Gmail.Client.History.{history_message_ids}
use mailflow.Gmail.Provider.{
  Setting, State, lift, lift_result, seed, start_of, Ending, returned, raised, unfinished, Yielded,
  is_permanent, size_of, to_message, built, fetch_raw, on_raw, on_message, yield_ids, finish,
  quietly, with_order, on_history, from_start, pop, fetch, reseed, is_stale,
}

-- The ids of the messages are some of these ids, in their order.
abbrev pub Subsequence : List RawMessage → List Text → Type 0
Subsequence [] ids = Unit
Subsequence (m ∷ ms) [] = ⊥
Subsequence (m ∷ ms) (id ∷ ids) =
    ((m.provider_message_id ≡ id) × Subsequence ms ids) ⊎ Subsequence (m ∷ ms) ids

Subsequence-skip :
    (ms : List RawMessage) (id : Text) (ids : List Text)
    → Subsequence ms ids
    → Subsequence ms (id ∷ ids)
Subsequence-skip [] id ids h = tt
Subsequence-skip (m ∷ ms) id ids h = inr h

module _ {X : Type 0} (K : CursorStore) (P : Setting X) (stream : StreamRef) where
  -- What the loop yields: messages with one cursor, whose ids are some of the ids, in their order.
  abbrev Good : Cursor → List Text → Yielded K P → Type 0
  Good cursor ids y = Shared cursor y.0.0 × Subsequence y.0.0 ids

  abbrev Built : Cursor → Text → Result RawMessage → Type 0
  Built cursor id (ok m) = (m.cursor ≡ cursor) × (m.provider_message_id ≡ id)
  Built cursor id (err e) = Unit

  to_message-Built :
      (cursor : Cursor) (id : Text) (b : Json × Bytes) (x : Slots X)
      → Built cursor id (to_message K P stream cursor id b x)
  unfolding to_message
  to_message-Built cursor id (body, raw) x =
      go (size_of K P body raw) (get_or body (text "threadId") (str []))
    where
      go :
          (r : Result ℤ) (t : Result Json)
          → Built cursor id (
              r >>= λ size. t >>= λ thread.
              ok (built K P stream cursor id raw (P.now x) size (str_of P.client.repr thread)))
      go (ok n) (ok j) = (refl, refl)
      go (ok n) (err e) = tt
      go (err e) t = tt

  on_message-Good :
      (cursor : Cursor) (id : Text) (ids : List Text) (rest : Slots X → Yielded K P)
      (r : Result RawMessage) (x : Slots X)
      → Built cursor id r
      → ((y : Slots X) → Good cursor ids (rest y))
      → Good cursor (id ∷ ids) (on_message K P rest r x)
  on_message-Good cursor id ids rest (err e) x b h = (tt, tt)
  on_message-Good cursor id ids rest (ok m) x b h = ((b.0, (h x).0), inl (b.1, (h x).1))

  on_raw-Good :
      (cursor : Cursor) (id : Text) (ids : List Text) (rest : Slots X → Yielded K P)
      (p : Result (Json × Bytes) × Slots X)
      → ((y : Slots X) → Good cursor ids (rest y))
      → Good cursor (id ∷ ids) (on_raw K P stream cursor id rest p)
  on_raw-Good cursor id ids rest (err e, x) h = elim (Bool-cases (is_permanent e.kind)) [
    | inl poison ↦ rw poison ((h x).0, Subsequence-skip (rest x).0.0 id ids (h x).1)
    | inr other ↦ rw other (tt, tt)
  ]
  on_raw-Good cursor id ids rest (ok b, x) h =
      on_message-Good cursor id ids rest (to_message K P stream cursor id b x) x
        (to_message-Built cursor id b x) h

  -- The loop over the ids of a history yields messages that all carry the cursor of that history, for
  -- some of the ids, in their order.
  pub yield_ids-Good :
      (cursor : Cursor) (ids : List Text) (x : Slots X)
      → Shared cursor (yield_ids K P stream cursor ids x).0.0
        × Subsequence (yield_ids K P stream cursor ids x).0.0 ids
  unfolding yield_ids
  yield_ids-Good cursor [] x = (tt, tt)
  yield_ids-Good cursor (id ∷ ids) x =
      on_raw-Good cursor id ids (yield_ids K P stream cursor ids) (fetch_raw K P stream id x)
        (λ y. yield_ids-Good cursor ids y)

  -- The inbox after a fetch that ended.
  abbrev pub Kept : State K P → (List RawMessage × Ending) × State K P → Type 0
  Kept s ((l, returned), t) = t.pending ≡ Dict.remove s.pending stream.mailbox
  Kept s ((l, raised e), t) = t.pending ≡ s.pending
  Kept s ((l, unfinished), t) = t.pending ≡ s.pending

  -- An action that leaves the inbox alone.
  abbrev Keeps : {A : Type 0} → Exec (State K P) A → Type 0
  Keeps m = (s : State K P) → (m s).1.pending ≡ s.pending

  Keeps-bind :
      {A B : Type 0} (m : Exec (State K P) A) (f : A → Exec (State K P) B)
      → Keeps m
      → ((a : A) → Keeps (f a))
      → Keeps (Exec.◌>>=◌ m f)
  Keeps-bind {A} {B} m f h k s = go (m s) (h s)
    where
      go :
          (p : Result A × State K P)
          → p.1.pending ≡ s.pending
          → (continue p f).1.pending ≡ s.pending
      go (ok a, t) q = k a t ∙ q
      go (err e, t) q = q

  seed-Keeps : (id : Text) → Keeps (seed K P stream id)
  seed-Keeps [] s = refl
  seed-Keeps (c ∷ t) s = go (P.parse_int (c ∷ t))
    where
      go :
          (r : Result ℤ)
          → (continue {S = State K P}
              (r, s)
              λ order u. (
                ok tt,
                record u {
                  cursors =
                      (K.commit_if_ahead P.tenant stream
                        (record { value = c ∷ t; order = order })
                        u.cursors).1;
                },
              )).1.pending
            ≡ s.pending
      go (ok n) = refl
      go (err e) = refl

  reseed-Keeps : Keeps (reseed K P stream)
  unfolding reseed
  reseed-Keeps s = go P.has_cursor_store
    where
      seeding : Json → Exec (State K P) (Unit {0})
      seeding id = seed K P stream (str_of P.client.repr id)

      id_of : Json → Exec (State K P) Json
      id_of profile = lift_result K P (get_or profile (text "historyId") (str []))

      profile_of : Exec (State K P) Json
      profile_of = lift K P (get_profile P.client stream.mailbox)

      go :
          (b : Bool)
          → ((if b then (Exec.◌>>=◌ profile_of λ p. Exec.◌>>=◌ (id_of p) seeding) else pure tt)
              s).1.pending
            ≡ s.pending
      go false = refl
      go true =
          Keeps-bind profile_of (λ p. Exec.◌>>=◌ (id_of p) seeding) (λ t. refl)
            (λ p.
              Keeps-bind (id_of p) seeding (λ t. refl) (λ id. seed-Keeps (str_of P.client.repr id)))
            s

  finish-Kept :
      (s t : State K P) (y : Yielded K P) → t.pending ≡ s.pending → Kept s (finish K P stream t y)
  unfolding pop
  finish-Kept s t ((l, returned), x) h = ap (λ d. Dict.remove d stream.mailbox) h
  finish-Kept s t ((l, raised e), x) h = h
  finish-Kept s t ((l, unfinished), x) h = h

  on_history-Kept :
      (s : State K P) (p : Result (Option (List Text × Text)) × Slots X)
      → Kept s (on_history K P stream s p)
  unfolding pop
  on_history-Kept s (err e, x) = elim (Bool-cases (is_stale e)) [
    | inl stale ↦ rw stale (
        quiet (reseed K P stream (record s { outside = x }))
          (reseed-Keeps (record s { outside = x })))
    | inr other ↦ rw other refl
  ]
    where
      quiet :
          (p : Result (Unit {0}) × State K P)
          → p.1.pending ≡ s.pending
          → Kept s (quietly K P stream p)
      quiet (ok u, t) h = ap (λ d. Dict.remove d stream.mailbox) h
      quiet (err z, t) h = h
  on_history-Kept s (ok none, x) = refl
  on_history-Kept s (ok (some (ids, latest)), x) = go (P.parse_int latest)
    where
      go : (r : Result ℤ) → Kept s (with_order K P stream latest ids (record s { outside = x }) r)
      go (err e) = refl
      go (ok n) = finish-Kept s (record s { outside = x }) _ refl

  -- A fetch that returns takes its mailbox out of the inbox, also where it has nothing to fetch or the
  -- history was too old; a fetch that raises leaves the inbox as it was, so that the next pass
  -- visits the mailbox again.
  pub fetch-Kept :
      (fuel : ℕ) (cursor : Option Cursor) (s : State K P) → Kept s (fetch K P fuel stream cursor s)
  unfolding fetch
  fetch-Kept fuel cursor s = go (start_of K P cursor (Dict.get s.pending stream.mailbox))
    where
      go : (start : Text) → Kept s (from_start K P fuel stream s start)
      go [] = refl
      go (c ∷ t) = on_history-Kept s (
          history_message_ids P.client P.status_of fuel stream.mailbox (c ∷ t) P.label_id s.outside)
