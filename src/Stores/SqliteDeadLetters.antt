-- ===== src/Stores/SqliteDeadLetters.antt =====
-- `SqliteDeadLetterStore` of src/mailflow/stores/sqlite.py against the in-memory store. The table is its rows
-- by record_id in the order of their rowid: an insert comes last, an update on conflict stays in place.
-- The JSON of a record, and how it is written and read, are pydantic's: parameters.
use mailflow.Base.{
  ℕ, zero, suc, ℤ, pos, negsuc, Text, text_Eq, Option, none, some, List, [], ◌∷◌, ◌≡◌, refl, ap,
  ◌∙◌, arith, take, map,
}
use mailflow.Dict
use mailflow.Dict.{Dict}
use mailflow.Core.Report.{DeadLetterRecord}
use mailflow.Stores.DeadLetters

module _ {Payload : Type 0} where
  -- SELECT payload FROM dead_letters ORDER BY rowid
  unfoldable pub payloads : Dict Text Payload → List Payload
  payloads [] = []
  payloads ((k, payload) ∷ rows) = payload ∷ payloads rows

  -- With LIMIT, if there is one: a negative limit is none.
  abbrev pub limited : Option ℤ → List Payload → List Payload
  limited none l = l
  limited (some (pos limit)) l = take limit l
  limited (some (negsuc n)) l = l

  unfoldable pub delete : Text → Dict Text Payload → Dict Text Payload
  delete record_id rows = Dict.remove rows record_id

-- What an operation of either store answers.
pub data Answer : Type 0 where
  nothing : Answer
  records : List DeadLetterRecord → Answer

pub data Operation : Type 0 where
  put_op : DeadLetterRecord → Operation
  list_op : Option ℤ → Operation
  delete_op : Text → Operation

abbrev pub NotNegative : Option ℤ → Type 0
NotNegative none = Unit
NotNegative (some (pos n)) = Unit
NotNegative (some (negsuc n)) = ⊥

-- No list is asked for with a negative limit.
abbrev pub Limits : List Operation → Type 0
Limits [] = Unit
Limits (put_op r ∷ ops) = Limits ops
Limits (list_op limit ∷ ops) = NotNegative limit × Limits ops
Limits (delete_op k ∷ ops) = Limits ops

-- A use of the in-memory store: every answer, and the store after it.
unfoldable pub use_memory : List Operation → DeadLetters.State → List Answer × DeadLetters.State
use_memory [] s = ([], s)
use_memory (put_op r ∷ ops) s =
    let (answers, s') = use_memory ops (DeadLetters.put r s) in (nothing ∷ answers, s')
use_memory (list_op limit ∷ ops) s =
    let (answers, s') = use_memory ops s in
    (records (DeadLetters.list_pending limit s) ∷ answers, s')
use_memory (delete_op k ∷ ops) s =
    let (answers, s') = use_memory ops (DeadLetters.delete k s) in (nothing ∷ answers, s')

module _ {Payload : Type 0} (dump : DeadLetterRecord → Payload)
    (load : Payload → DeadLetterRecord) where
  abbrev pub Rows : Type 0
  Rows = Dict Text Payload

  unfoldable pub put : DeadLetterRecord → Rows → Rows
  put entry rows = Dict.put rows entry.record_id (dump entry)

  unfoldable pub list_pending : Option ℤ → Rows → List DeadLetterRecord
  unfolding payloads
  list_pending limit rows = map load (limited limit (payloads rows))

  unfoldable pub use_sqlite : List Operation → Rows → List Answer × Rows
  use_sqlite [] rows = ([], rows)
  use_sqlite (put_op r ∷ ops) rows =
      let (answers, rows') = use_sqlite ops (put r rows) in (nothing ∷ answers, rows')
  use_sqlite (list_op limit ∷ ops) rows =
      let (answers, rows') = use_sqlite ops rows in
      (records (list_pending limit rows) ∷ answers, rows')
  use_sqlite (delete_op k ∷ ops) rows =
      let (answers, rows') = use_sqlite ops (delete k rows) in (nothing ∷ answers, rows')

  -- The table as the in-memory store that it stands for.
  abbrev pub loaded : Rows → DeadLetters.State
  loaded [] = []
  loaded ((k, payload) ∷ rows) = (k, load payload) ∷ loaded rows

  module _ (load-dump : (r : DeadLetterRecord) → load (dump r) ≡ r) where
    loaded-put :
        (r : DeadLetterRecord) (rows : Rows) → loaded (put r rows) ≡ DeadLetters.put r (loaded rows)
    unfolding put DeadLetters.put Dict.put
    loaded-put r [] = ap (λ x. (r.record_id, x) ∷ []) (load-dump r)
    loaded-put r ((k, payload) ∷ rows) = ground (arith, loaded-put r rows, load-dump r)

    loaded-delete :
        (k : Text) (rows : Rows) → loaded (delete k rows) ≡ DeadLetters.delete k (loaded rows)
    unfolding delete DeadLetters.delete Dict.remove
    loaded-delete k [] = refl
    loaded-delete k ((j, payload) ∷ rows) = ground (arith, loaded-delete k rows)

    loaded-payloads :
        (rows : Rows) → map load (payloads rows) ≡ DeadLetters.all_records (loaded rows)
    unfolding payloads DeadLetters.all_records
    loaded-payloads [] = refl
    loaded-payloads ((k, payload) ∷ rows) = ap (◌∷◌ (load payload)) (loaded-payloads rows)

    map-take : (n : ℕ) (l : List Payload) → map load (take n l) ≡ take n (map load l)
    map-take zero l = refl
    map-take (suc n) [] = refl
    map-take (suc n) (x ∷ l) = ap (◌∷◌ (load x)) (map-take n l)

    loaded-list_pending :
        (limit : Option ℤ) (rows : Rows)
        → NotNegative limit
        → list_pending limit rows ≡ DeadLetters.list_pending limit (loaded rows)
    unfolding list_pending DeadLetters.list_pending
    loaded-list_pending none rows h = loaded-payloads rows
    loaded-list_pending (some (negsuc n)) rows h = absurd h
    loaded-list_pending (some (pos n)) rows h =
        map-take n (payloads rows) ∙ ap (take n) (loaded-payloads rows)

    -- Where reading gives back the record that was written, and no limit is negative, the SQLite store is the in-memory
    -- store on disk: any sequence of operations answers the same, and leaves a table that stands for the same
    -- records in the same order.
    pub use_sqlite-use_memory :
        (ops : List Operation) (rows : Rows)
        → Limits ops
        → ((use_sqlite ops rows).0, loaded (use_sqlite ops rows).1) ≡ use_memory ops (loaded rows)
    unfolding use_sqlite use_memory
    use_sqlite-use_memory [] rows h = refl
    use_sqlite-use_memory (put_op r ∷ ops) rows h =
        ground (arith, use_sqlite-use_memory ops (put r rows) h, loaded-put r rows)
    use_sqlite-use_memory (list_op limit ∷ ops) rows h =
        ground (arith, use_sqlite-use_memory ops rows h.1, loaded-list_pending limit rows h.0)
    use_sqlite-use_memory (delete_op k ∷ ops) rows h =
        ground (arith, use_sqlite-use_memory ops (delete k rows) h, loaded-delete k rows)
