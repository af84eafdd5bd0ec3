-- ===== src/Stores/Postgres.antt =====
-- src/mailflow/stores/postgres.py: the tables as rows by key, each statement as its SQL says. A statement
-- locks the row that it changes, so a method of one statement is one step; `record_attempt` is one
-- transaction. `clock n` is the n-th reading of the injected clock.
pub mod Agrees
use mailflow.Base.{
  ℕ, ◌+◌, leb, leb_ℤ, ℤ, Text, text_Eq, Eq, Bool, true, false, ◌&&◌, ◌||◌, not, Option, none, some,
  List, [], ◌∷◌, if◌then◌else◌,
}
use mailflow.Dict
use mailflow.Dict.{Dict}
use mailflow.Core.Models.{StreamRef, Cursor, Time}
use mailflow.Stores.Bookmark.{Bookmark, bookmark, bookmark_Eq}
use mailflow.Stores.Claim.{Claim, attempts_of}
use mailflow.Stores.SqliteCursor.{Row}
use mailflow.Stores.SqliteDedupe.{State}

-- INSERT .. ON CONFLICT (key) DO UPDATE SET .. WHERE .., and whether it wrote a row.
unfoldable pub upsert_where {κ} :
    {K V : Type κ} → ⦃e : Eq K⦄ → Dict K V → K → V → (V → Bool) → (V → V) → Bool × Dict K V
upsert_where [] key row where_ set = (true, (key, row) ∷ [])
upsert_where ⦃e⦄ ((k, old) ∷ rows) key row where_ set =
    let (wrote, rest) = upsert_where rows key row where_ set in
    if e.beq k key
    then (if where_ old then (true, (k, set old) ∷ rows) else (false, (k, old) ∷ rows))
    else (wrote, (k, old) ∷ rest)

-- `PostgresCursorStore.commit_if_ahead`: WHERE cursors.order_n < excluded.order_n
unfoldable pub commit_if_ahead :
    Text → StreamRef → Cursor → Dict Bookmark Row → Bool × Dict Bookmark Row
unfolding upsert_where
commit_if_ahead tenant stream cursor rows =
    let new : Row = record { value = cursor.value; order_n = cursor.order } in
    upsert_where rows (bookmark tenant stream) new (λ (r : Row). not (leb_ℤ cursor.order r.order_n))
      (λ _. new)

-- A row of `claims` with the defaults of its columns.
abbrev pub new_row : Claim
new_row = record { claimed = false; done = false; attempts = 0; claimed_at = 0; expires_at = none }

-- WHERE claims.done = 0 AND (claims.claimed = 0 OR now - claims.claimed_at >= lease_seconds)
abbrev pub may_claim : Time → ℕ → Claim → Bool
may_claim now lease_seconds c =
    not c.done && (not c.claimed || leb (c.claimed_at + lease_seconds) now)

-- UPDATE claims SET attempts = attempts + 1 WHERE key = .. RETURNING attempts
unfoldable pub record_attempt : Text → State → ℕ × State
record_attempt key s =
    let rows = Dict.put_new s.claims key new_row in
    let rows' = Dict.adjust rows key (λ (c : Claim). record c { attempts = c.attempts + 1 }) in
    (attempts_of (Dict.get rows' key), record s { claims = rows' })

-- UPDATE claims SET claimed = 0 WHERE key = .. AND done = 0
unfoldable pub release : Text → State → State
release key s = record s {
  claims =
      Dict.adjust s.claims key (λ (c : Claim). if c.done then c else record c { claimed = false });
}

-- DELETE .. WHERE done = 1 AND expires_at IS NOT NULL AND expires_at <= now
abbrev pub is_over : Time → Claim → Bool
is_over now c = elim c.expires_at [ none ↦ false | some t ↦ c.done && leb t now ]

unfoldable pub purge_rows : Time → Dict Text Claim → ℕ × Dict Text Claim
purge_rows now [] = (0, [])
purge_rows now ((k, c) ∷ rows) =
    let (n, rest) = purge_rows now rows in
    if is_over now c then (n + 1, rest) else (n, (k, c) ∷ rest)

unfoldable pub purge_expired : Time → State → ℕ × State
unfolding purge_rows
purge_expired now s = let (n, rows) = purge_rows now s.claims in (n, record s { claims = rows })

module _ (clock : ℕ → Time) where
  unfoldable pub try_claim : Text → ℕ → State → Bool × State
  unfolding upsert_where
  try_claim key lease_seconds s =
      let now = clock s.ticks in
      let (won, rows) =
        upsert_where s.claims key (record new_row { claimed = true; claimed_at = now })
          (may_claim now lease_seconds)
          (λ (c : Claim). record c { claimed = true; claimed_at = now }) in
      (won, record { claims = rows; ticks = s.ticks + 1 })

  unfoldable pub mark_done : Text → ℕ → State → State
  unfolding upsert_where
  mark_done key ttl_seconds s =
      let expires_at = clock s.ticks + ttl_seconds in
      record {
        claims =
            (upsert_where s.claims key
              (record new_row { done = true; expires_at = some expires_at }) (λ _. true)
              (λ (c : Claim). record c { done = true; expires_at = some expires_at })).1;
        ticks = s.ticks + 1;
      }
