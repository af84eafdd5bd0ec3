-- ===== src/Providers/Memory/Refetch.antt =====
-- The loop of src/mailflow/core/pipeline.py over the `MemoryProvider` of src/mailflow/providers/memory.py: the
-- messages that it leaves, and the next fetch.
use mailflow.Base.{
  ℕ, suc, ℤ, pos, leb_ℤ, ◌<ℤ◌, lt_ℤ-leb, leb_ℤ-lt, false, Option, none, some, List, [], ◌∷◌, ◌≡◌,
  refl, sym, subst, arith, Bool-cases, inl, inr,
}
use mathlib.Core.List.{Memᴰ}
use mailflow.Dict
use mailflow.Dict.{Dict, or_default}
use mailflow.Core.Models.{RawMessage, StreamRef, Cursor, Disposition}
use mailflow.Core.Streams.{stream_Eq}
use mailflow.Ports.{DedupeStore, CursorStore}
use mailflow.Pipeline.Components.{Components, PipelineConfig}
use mailflow.Pipeline.World.{World}
use mailflow.Pipeline.Run.{run_messages}
use mailflow.Pipeline.Loop.{outcomes}
use mailflow.Pipeline.LowWater.{Below, Above, PendingAhead, pending_refetched}
use mailflow.Providers.Memory.{SeedEmail, Seed, to_message, start_of, yield_from, fetch}

yield_from-Above_past :
    (stream : StreamRef) (start : ℤ) (index : ℕ) (items : List SeedEmail) (c : Cursor)
    → c.order <ℤ pos index
    → start <ℤ pos index
    → Above (some c) (yield_from stream start index items)
unfolding yield_from to_message
yield_from-Above_past stream start index [] c h k = tt
yield_from-Above_past stream start index (item ∷ items) c h k = rw (lt_ℤ-leb (pos index) start k) (
  h,
  yield_from-Above_past stream start (suc index) items (to_message stream index item).cursor
      (omega arith) (omega arith),
)

yield_from-Above :
    (stream : StreamRef) (c : Option Cursor) (index : ℕ) (items : List SeedEmail)
    → Above c (yield_from stream (start_of c) index items)
unfolding yield_from to_message
yield_from-Above stream c index [] = tt
yield_from-Above stream c index (item ∷ items) =
    elim (Bool-cases (leb_ℤ (pos index) (start_of c))) [
      | inl behind ↦ rw behind (yield_from-Above stream c (suc index) items)
      | inr ahead ↦ rw ahead (
        below c (leb_ℤ-lt (pos index) (start_of c) ahead),
        yield_from-Above_past stream (start_of c) (suc index) items
            (to_message stream index item).cursor (omega arith)
            (next (start_of c) (leb_ℤ-lt (pos index) (start_of c) ahead)),
      )
    ]
  where
    below : (c : Option Cursor) → start_of c <ℤ pos index → Below c (pos index)
    below none h = tt
    below (some c) h = h

    next : (start : ℤ) → start <ℤ pos index → start <ℤ pos (suc index)
    next start h = omega arith

-- The messages that the provider yields come in the order of their cursors, after the bookmark.
pub fetch-Above :
    (seed : Seed) (stream : StreamRef) (c : Option Cursor) → Above c (fetch seed stream c)
unfolding fetch
fetch-Above seed stream c = yield_from-Above stream c 1 (or_default [] (Dict.get seed stream))

-- A message that was yielded is yielded again from every bookmark before it.
yield_from-again :
    (stream : StreamRef) (start start' : ℤ) (index : ℕ) (items : List SeedEmail) (m : RawMessage)
    → Memᴰ m (yield_from stream start index items)
    → start' <ℤ m.cursor.order
    → Memᴰ m (yield_from stream start' index items)
unfolding yield_from to_message
yield_from-again stream start start' index [] m h k = h
yield_from-again stream start start' index (item ∷ items) m h k =
    elim (Bool-cases (leb_ℤ (pos index) start)) [
      | inl behind ↦
          keep (yield_from-again stream start start' (suc index) items m (rw behind at h) k)
      | inr ahead ↦
          split (rw ahead at h) (λ t. yield_from-again stream start start' (suc index) items m t k)
    ]
  where
    here : m ≡ to_message stream index item → leb_ℤ (pos index) start' ≡ false
    here e = lt_ℤ-leb (pos index) start' (subst (λ (n : RawMessage). start' <ℤ n.cursor.order) e k)

    keep :
        Memᴰ m (yield_from stream start' (suc index) items)
        → Memᴰ m (yield_from stream start' index (item ∷ items))
    keep h' = elim (Bool-cases (leb_ℤ (pos index) start')) [
      | inl behind ↦ rw behind h'
      | inr ahead ↦ rw ahead (Memᴰ.tail h')
    ]

    split :
        Memᴰ m (to_message stream index item ∷ yield_from stream start (suc index) items)
        → (Memᴰ m (yield_from stream start (suc index) items)
            → Memᴰ m (yield_from stream start' (suc index) items))
        → Memᴰ m (yield_from stream start' index (item ∷ items))
    split (Memᴰ.head e) again = rw (here e) (Memᴰ.head e)
    split (Memᴰ.tail t) again = keep (again t)

-- Every message that the provider yields has a place after 0.
yield_from-pos :
    (stream : StreamRef) (start : ℤ) (index : ℕ) (items : List SeedEmail) (m : RawMessage)
    → Memᴰ m (yield_from stream start (suc index) items)
    → pos 0 <ℤ m.cursor.order
unfolding yield_from to_message
yield_from-pos stream start index [] m h = elim h [ ]
yield_from-pos stream start index (item ∷ items) m h =
    elim (Bool-cases (leb_ℤ (pos (suc index)) start)) [
      | inl behind ↦ yield_from-pos stream start (suc index) items m (rw behind at h)
      | inr ahead ↦ split (rw ahead at h) (yield_from-pos stream start (suc index) items m)
    ]
  where
    split :
        Memᴰ m
          (to_message stream (suc index) item ∷ yield_from stream start (suc (suc index)) items)
        → (Memᴰ m (yield_from stream start (suc (suc index)) items) → pos 0 <ℤ m.cursor.order)
        → pos 0 <ℤ m.cursor.order
    split (Memᴰ.head e) later =
        subst (λ (n : RawMessage). pos 0 <ℤ n.cursor.order) (sym e) (omega arith)
    split (Memᴰ.tail t) later = later t

fetch-again :
    (seed : Seed) (stream : StreamRef) (c c' : Option Cursor) (m : RawMessage)
    → Memᴰ m (fetch seed stream c)
    → Below c' m.cursor.order
    → Memᴰ m (fetch seed stream c')
unfolding fetch
fetch-again seed stream c none m h k =
    yield_from-again stream (start_of c) (pos 0) 1 (or_default [] (Dict.get seed stream)) m h
      (yield_from-pos stream (start_of c) 0 (or_default [] (Dict.get seed stream)) m h)
fetch-again seed stream c (some d) m h k =
    yield_from-again stream (start_of c) d.order 1 (or_default [] (Dict.get seed stream)) m h k

-- Every message that was left for a later run is in the list.
abbrev pub PendingIn : List RawMessage → List (Option Disposition) → List RawMessage → Type 0
PendingIn later [] ms = Unit
PendingIn later (o ∷ os) [] = Unit
PendingIn later (none ∷ os) (m ∷ ms) = Memᴰ m later × PendingIn later os ms
PendingIn later (some d ∷ os) (m ∷ ms) = PendingIn later os ms

PendingAhead-PendingIn :
    (seed : Seed) (stream : StreamRef) (c c' : Option Cursor) (os : List (Option Disposition))
    (ms : List RawMessage)
    → ((m : RawMessage) → Memᴰ m ms → Memᴰ m (fetch seed stream c))
    → PendingAhead c' os ms
    → PendingIn (fetch seed stream c') os ms
PendingAhead-PendingIn seed stream c c' [] ms f h = tt
PendingAhead-PendingIn seed stream c c' (o ∷ os) [] f h = tt
PendingAhead-PendingIn seed stream c c' (none ∷ os) (m ∷ ms) f h = (
  fetch-again seed stream c c' m (f m (Memᴰ.head refl)) h.0,
  PendingAhead-PendingIn seed stream c c' os ms (λ n i. f n (Memᴰ.tail i)) h.1,
)
PendingAhead-PendingIn seed stream c c' (some d ∷ os) (m ∷ ms) f h =
    PendingAhead-PendingIn seed stream c c' os ms (λ n i. f n (Memᴰ.tail i)) h

-- No message is lost: after the loop over what the in-memory provider yields for a stream, returned
-- or raised, a fetch from the bookmark that the stream has then yields every message again that the
-- loop left for a later run.
pub fetch-PendingIn :
    (C : Components) (D : DedupeStore) (K : CursorStore) (cfg : PipelineConfig) (seed : Seed)
    (stream : StreamRef) (w : World C D K)
    → let msgs = fetch seed stream (K.get cfg.tenant stream w.cursors) in
      PendingIn
        (fetch seed stream
          (K.get cfg.tenant stream (run_messages C D K cfg stream false msgs w).1.cursors))
        (outcomes C D K cfg stream false msgs w)
        msgs
fetch-PendingIn C D K cfg seed stream w =
    let c = K.get cfg.tenant stream w.cursors in
    let msgs = fetch seed stream c in
    PendingAhead-PendingIn seed stream c
      (K.get cfg.tenant stream (run_messages C D K cfg stream false msgs w).1.cursors)
      (outcomes C D K cfg stream false msgs w) msgs (λ m h. h)
      (pending_refetched C D K cfg stream msgs w (fetch-Above seed stream c))
