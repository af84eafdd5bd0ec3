-- ===== src/Graph/Provider/Feed.antt =====
-- What `GraphProvider` of src/mailflow/adapters/graph/provider.py yields: the numbers of its messages.
use mailflow.Base.{
  ℕ, suc, ◌+◌, pos, Text, text, Option, none, some, List, [], ◌∷◌, ◌++◌, length, Bool-cases, inl,
  inr, ◌≡◌, refl, ap, ◌∙◌, arith,
}
use mailflow.Exec.{Result, ok, err}
use mailflow.Exec.Results.{◌>>=◌}
use mailflow.Dict.{Dict}
use mailflow.Json.{Json}
use mailflow.Core.Models.{RawMessage, StreamRef, Cursor}
use mailflow.Core.Streams.{stream_eq}
use mailflow.Graph.Notifications.{Notification}
use mailflow.Graph.Provider.{
  State, Setting, stream_for, has_stream, attach, fetch_message, built, raw_message, to_raw,
  text_or, thread_key_of,
}
use mailflow.Graph.Provider.Fetch.{
  Ending, returned, raised, unfinished, Walk, yield_message, on_fetched, walk, on_attached,
  walk_messages, on_swept, sweep, fetch, after_pending,
}

-- The messages are numbered one by one, the first of them `suc n`.
abbrev pub Numbered : ℕ → List RawMessage → Type 0
Numbered n [] = Unit
Numbered n (m ∷ l) = (m.cursor.order ≡ pos (suc n)) × Numbered (suc n) l

Numbered-append :
    (n m : ℕ) (l k : List RawMessage)
    → m ≡ n + length l
    → Numbered n l
    → Numbered m k
    → Numbered n (l ++ k)
Numbered-append n m [] k e h i = go m n (omega arith) i
  where
    go : (a b : ℕ) → a ≡ b → Numbered a k → Numbered b k
    go a b e i = rw e at i
Numbered-append n m (x ∷ l) k e h i = (h.0, Numbered-append (suc n) m l k (omega arith) h.1 i)

abbrev Built : {X : Type 0} → Cursor → Result RawMessage × X → Type 0
Built cursor (ok m, x) = m.cursor ≡ cursor
Built cursor (err e, x) = Unit

-- A loop that started from a counter.
abbrev Counted : {X : Type 0} → ℕ → Walk X → Type 0
Counted n w = Numbered n w.yielded × (w.ending ≡ returned → w.order ≡ n + length w.yielded)

module _ {X : Type 0} (P : Setting X) (stream : StreamRef) where
  raw_message-Built :
      (id : Text) (cursor : Cursor) (body : Json) (x : X)
      → Built cursor (raw_message P stream id cursor body x)
  unfolding raw_message
  raw_message-Built id cursor body x = go (text_or P body (text "id") id) (thread_key_of P body)
    where
      go :
          (r t : Result Text)
          → Built cursor
              (r >>= (λ i. t >>= λ k. ok (built P stream cursor (P.dumps body) (P.now x) i k)), x)
      go (ok i) (ok k) = refl
      go (ok i) (err e) = tt
      go (err e) t = tt

  yield_message-Counted :
      (n : ℕ) (cursor : Cursor) (rest : ℕ → X → Walk X) (p : Result RawMessage × X)
      → cursor.order ≡ pos (suc n)
      → Built cursor p
      → ((x : X) → Counted (suc n) (rest (suc n) x))
      → Counted n (yield_message P stream (suc n) rest p)
  yield_message-Counted n cursor rest (err e, x) h b k = (tt, λ r. ground arith)
  yield_message-Counted n cursor rest (ok m, x) h b k =
      ((ap (λ c. c.order) b ∙ h, (k x).0), λ r. omega (arith, (k x).1 r))

  walk-Counted :
      (ids : Dict Text Text) (notes : List Notification) (n : ℕ) (x : X)
      → Counted n (walk P stream ids notes n x)
  unfolding walk to_raw
  walk-Counted ids [] n x = (tt, λ r. omega arith)
  walk-Counted ids (note ∷ notes) n x =
      elim (Bool-cases (stream_eq (stream_for P.stream_resolver note) stream)) [
        | inl own ↦
            rw own (fetched (fetch_message P ids note x) (λ m y. walk-Counted ids notes m y))
        | inr other ↦ rw other (walk-Counted ids notes n x)
      ]
    where
      fetched :
          (p : Result (Option Json) × X)
          → ((m : ℕ) (y : X) → Counted m (walk P stream ids notes m y))
          → Counted n (on_fetched P stream note n (walk P stream ids notes) p)
      fetched (err e, y) ih = (tt, λ r. ground arith)
      fetched (ok none, y) ih = ih n y
      fetched (ok (some body), y) ih =
          yield_message-Counted n _ (walk P stream ids notes) (to_raw P stream note (suc n) body y)
            refl (raw_message-Built note.message_id _ body y) (ih (suc n))

  walk_messages-Counted :
      (delta : Text) (bodies : List Json) (n : ℕ) (x : X)
      → Counted n (walk_messages P stream delta bodies n x)
  unfolding walk_messages
  walk_messages-Counted delta [] n x = (tt, λ r. omega arith)
  walk_messages-Counted delta (body ∷ bodies) n x =
      attached (attach P body stream.mailbox x) (λ y. walk_messages-Counted delta bodies (suc n) y)
    where
      attached :
          (p : Result Json × X)
          → ((y : X) → Counted (suc n) (walk_messages P stream delta bodies (suc n) y))
          → Counted n (on_attached P stream delta n (walk_messages P stream delta bodies) p)
      attached (err e, y) ih = (tt, λ r. ground arith)
      attached (ok b, y) ih =
          yield_message-Counted n _ (walk_messages P stream delta bodies)
            (raw_message P stream [] (record { value = delta; order = pos (suc n) }) b y) refl
            (raw_message-Built [] _ b y) ih

  on_swept-Counted :
      (n : ℕ) (p : Result (Option (List Json × Text)) × X) → Counted n (on_swept P stream n p)
  on_swept-Counted n (err e, y) = (tt, λ r. ground arith)
  on_swept-Counted n (ok none, y) = (tt, λ r. ground arith)
  on_swept-Counted n (ok (some (messages, delta)), y) = walk_messages-Counted delta messages n y

  sweep-Counted :
      (fuel : ℕ) (cursor : Option Cursor) (n : ℕ) (x : X)
      → Counted n (sweep P stream fuel cursor n x)
  unfolding sweep
  sweep-Counted fuel cursor n x = on_swept-Counted n _

  -- A fetch numbers the messages that it yields one by one, on from the provider's counter, those of the
  -- notifications and those of a sweep alike, whatever raises on the way.
  pub fetch-Numbered :
      (fuel : ℕ) (cursor : Option Cursor) (s : State) (x : X)
      → Numbered s.order (fetch P stream fuel cursor s x).0.0
  unfolding fetch
  fetch-Numbered fuel cursor s x =
      let w = walk P stream s.internet_ids s.pending s.order x in
      go w w.ending refl (walk-Counted s.internet_ids s.pending s.order x)
    where
      go :
          (w : Walk X) (ending : Ending)
          → w.ending ≡ ending
          → Counted s.order w
          → Numbered s.order (after_pending P stream (sweep P stream fuel cursor) s w ending).0.0
      go w returned e h = elim (Bool-cases (has_stream stream s.sweep_streams)) [
        | inl asked ↦ rw asked (
            Numbered-append s.order w.order w.yielded
              (sweep P stream fuel cursor w.order w.outside).yielded (h.1 e) h.0
              (sweep-Counted fuel cursor w.order w.outside).0)
        | inr other ↦ rw other h.0
      ]
      go w (raised z) e h = h.0
      go w unfinished e h = h.0
