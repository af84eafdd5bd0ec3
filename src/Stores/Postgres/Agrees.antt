-- ===== src/Stores/Postgres/Agrees.antt =====
-- The stores of src/mailflow/stores/postgres.py against those of src/mailflow/stores/sqlite.py.
use mailflow.Base.{
  ℕ, ◌+◌, leb_ℤ, Text, text_Eq, Eq, Bool, true, false, not, Option, none, some, List, [], ◌∷◌, ◌≡◌,
  refl, ap, arith, Bool-cases, inl, inr, if◌then◌else◌,
}
use mailflow.Dict
use mailflow.Dict.{Dict}
use mailflow.Core.Models.{StreamRef, Cursor, Time}
use mailflow.Stores.Bookmark.{Bookmark, bookmark, bookmark_Eq}
use mailflow.Stores.Claim.{Claim, new_claim}
use mailflow.Stores.SqliteCursor
use mailflow.Stores.SqliteCursor.{Row}
use mailflow.Stores.SqliteDedupe
use mailflow.Stores.SqliteDedupe.{State}
use mailflow.Stores.Postgres
use mailflow.Stores.Postgres.{upsert_where, purge_rows}

module _ {κ} {K V : Type κ} ⦃e : Eq K⦄ where
  -- What an upsert does, by the row that was there.
  by_row : Dict K V → K → V → (V → Bool) → (V → V) → Option V → Bool × Dict K V
  by_row d key row where_ set none = (true, Dict.put d key row)
  by_row d key row where_ set (some old) =
      if where_ old then (true, Dict.adjust d key set) else (false, d)

  upsert_where-by_row :
      (d : Dict K V) (key : K) (row : V) (where_ : V → Bool) (set : V → V)
      → upsert_where d key row where_ set ≡ by_row d key row where_ set (Dict.get d key)
  unfolding upsert_where by_row Dict.get Dict.put Dict.adjust
  upsert_where-by_row [] key row where_ set = refl
  upsert_where-by_row ((k, old) ∷ d) key row where_ set =
      ground (arith, upsert_where-by_row d key row where_ set)

  upsert_where-adjust :
      (d : Dict K V) (key : K) (blank : V) (set : V → V)
      → (upsert_where d key (set blank) (λ _. true) set).1
        ≡ Dict.adjust (Dict.put_new d key blank) key set
  unfolding upsert_where Dict.adjust Dict.put_new
  upsert_where-adjust [] key blank set = ground (arith, e.beq_iff key key)
  upsert_where-adjust ((k, old) ∷ d) key blank set =
      ground (arith, upsert_where-adjust d key blank set)

  adjust_same :
      (d : Dict K V) (key : K) (f g : V → V)
      → ((v : V) → f v ≡ g v)
      → Dict.adjust d key f ≡ Dict.adjust d key g
  unfolding Dict.adjust
  adjust_same [] key f g h = refl
  adjust_same ((k, old) ∷ d) key f g h = ground (arith, adjust_same d key f g h, h old)

module _ {κ} {K V : Type κ} ⦃e : Eq K⦄ where
  adjust-put :
      (d : Dict K V) (key : K) (row old : V)
      → Dict.get d key ≡ some old
      → Dict.adjust d key (λ _. row) ≡ Dict.put d key row
  unfolding Dict.get Dict.adjust Dict.put
  adjust-put [] key row old h = cc
  adjust-put ((k, v) ∷ d) key row old h = ground (arith, adjust-put d key row old)

-- An operation of a dedupe store, with its arguments.
pub data Operation : Type 0 where
  claiming : Text → ℕ → Operation
  attempting : Text → Operation
  finishing : Text → ℕ → Operation
  releasing : Text → Operation
  purging : Time → Operation

pub data Answer : Type 0 where
  flag : Bool → Answer
  number : ℕ → Answer
  nothing : Answer

module _ (clock : ℕ → Time) where
  abbrev pub postgres_step : Operation → State → Answer × State
  postgres_step (claiming key lease) s =
      let (won, s') = Postgres.try_claim clock key lease s in (flag won, s')
  postgres_step (attempting key) s = let (n, s') = Postgres.record_attempt key s in (number n, s')
  postgres_step (finishing key ttl) s = (nothing, Postgres.mark_done clock key ttl s)
  postgres_step (releasing key) s = (nothing, Postgres.release key s)
  postgres_step (purging now) s = let (n, s') = Postgres.purge_expired now s in (number n, s')

  abbrev pub sqlite_step : Operation → State → Answer × State
  sqlite_step (claiming key lease) s =
      let (won, s') = SqliteDedupe.try_claim clock key lease s in (flag won, s')
  sqlite_step (attempting key) s = let (n, s') = SqliteDedupe.record_attempt key s in (number n, s')
  sqlite_step (finishing key ttl) s = (nothing, SqliteDedupe.mark_done clock key ttl s)
  sqlite_step (releasing key) s = (nothing, SqliteDedupe.release key s)
  sqlite_step (purging now) s = let (n, s') = SqliteDedupe.purge_expired now s in (number n, s')

  try_claim_agrees :
      (key : Text) (lease : ℕ) (s : State)
      → Postgres.try_claim clock key lease s ≡ SqliteDedupe.try_claim clock key lease s
  unfolding Postgres.try_claim SqliteDedupe.try_claim by_row
  try_claim_agrees key lease s =
      let now = clock s.ticks in
      rw
        (upsert_where-by_row s.claims key
          (record Postgres.new_row { claimed = true; claimed_at = now })
          (Postgres.may_claim now lease)
          (λ (c : Claim). record c { claimed = true; claimed_at = now }))
        (ground arith)

  mark_done_agrees :
      (key : Text) (ttl : ℕ) (s : State)
      → Postgres.mark_done clock key ttl s ≡ SqliteDedupe.mark_done clock key ttl s
  unfolding Postgres.mark_done SqliteDedupe.mark_done
  mark_done_agrees key ttl s =
      ap (λ (rows : Dict Text Claim). record { claims = rows; ticks = s.ticks + 1 })
        (upsert_where-adjust s.claims key (new_claim false 0)
          (SqliteDedupe.finish (clock s.ticks + ttl)))

  release_agrees : (key : Text) (s : State) → Postgres.release key s ≡ SqliteDedupe.release key s
  unfolding Postgres.release SqliteDedupe.release
  release_agrees key s =
      ap (λ (rows : Dict Text Claim). record s { claims = rows })
        (adjust_same s.claims key
          (λ (c : Claim). if c.done then c else record c { claimed = false }) SqliteDedupe.let_go
          (λ c. ground arith))

  purge_rows_agrees :
      (now : Time) (d : Dict Text Claim) → purge_rows now d ≡ SqliteDedupe.delete_expired now d
  unfolding purge_rows SqliteDedupe.delete_expired
  purge_rows_agrees now [] = refl
  purge_rows_agrees now ((k, c) ∷ d) = ground (arith, purge_rows_agrees now d)

  step_agrees : (op : Operation) (s : State) → postgres_step op s ≡ sqlite_step op s
  unfolding Postgres.record_attempt SqliteDedupe.record_attempt Postgres.purge_expired
      SqliteDedupe.purge_expired
  step_agrees (claiming key lease) s = rw (try_claim_agrees key lease s) refl
  step_agrees (attempting key) s = refl
  step_agrees (finishing key ttl) s = rw (mark_done_agrees key ttl s) refl
  step_agrees (releasing key) s = rw (release_agrees key s) refl
  step_agrees (purging now) s = rw (purge_rows_agrees now s.claims) refl

  -- The answers of a store to a sequence of operations, and its table after them.
  unfoldable pub use_store :
      (Operation → State → Answer × State) → List Operation → State → List Answer × State
  use_store step [] s = ([], s)
  use_store step (op ∷ ops) s =
      let (answer, s1) = step op s in
      let (answers, s2) = use_store step ops s1 in (answer ∷ answers, s2)

  -- The two dedupe stores, which are written with different statements, are one: from the same table
  -- and with the same clock, any sequence of claims, attempts, completions, releases and purges gets
  -- the same answers from both and leaves the same table.
  pub use_store_agrees :
      (ops : List Operation) (s : State)
      → use_store postgres_step ops s ≡ use_store sqlite_step ops s
  unfolding use_store
  use_store_agrees [] s = refl
  use_store_agrees (op ∷ ops) s =
      rw (step_agrees op s) (rw (use_store_agrees ops (sqlite_step op s).1) refl)

-- The same for the cursor stores, whose tests are written the other way round.
commit_if_ahead_agrees :
    (tenant : Text) (stream : StreamRef) (cursor : Cursor) (rows : Dict Bookmark Row)
    → Postgres.commit_if_ahead tenant stream cursor rows
      ≡ SqliteCursor.commit_if_ahead tenant stream cursor rows
unfolding Postgres.commit_if_ahead SqliteCursor.commit_if_ahead by_row
commit_if_ahead_agrees tenant stream cursor rows =
    rw
      (upsert_where-by_row rows (bookmark tenant stream) new
        (λ (r : Row). not (leb_ℤ cursor.order r.order_n)) (λ _. new))
      (split (Dict.get rows (bookmark tenant stream)) refl)
  where
    new : Row
    new = record { value = cursor.value; order_n = cursor.order }

    split :
        (o : Option Row)
        → Dict.get rows (bookmark tenant stream) ≡ o
        → by_row rows
            (bookmark tenant stream)
            new
            (λ (r : Row). not (leb_ℤ cursor.order r.order_n))
            (λ _. new)
            o
          ≡ (if SqliteCursor.is_stale o cursor
              then (false, rows)
              else (true, SqliteCursor.upsert (bookmark tenant stream) cursor rows))
    split none q = refl
    split (some old) q = elim (Bool-cases (leb_ℤ cursor.order old.order_n)) [
      | inl stale ↦ rw stale refl
      | inr fresh ↦
          rw fresh (ap (λ l. (true, l)) (adjust-put rows (bookmark tenant stream) new old q))
    ]
