-- ===== src/Stores/SqliteDedupe.antt =====
-- `SqliteDedupeStore` of src/mailflow/stores/sqlite.py. The table `claims` is its rows by key, each
-- statement is what its SQL says, and `clock n` is the n-th reading of the injected clock. The lock
-- makes each method one step, so a method is a function on the table.
pub mod Laws
pub mod Lease
pub mod Purge
use mailflow.Base.{
  ℕ, zero, suc, ◌+◌, Text, text_Eq, Bool, true, false, ◌&&◌, ◌||◌, not, Option, none, some, List,
  [], ◌∷◌, leb, if◌then◌else◌,
}
use mailflow.Dict
use mailflow.Dict.{Dict}
use mailflow.Core.Models.{Time}
use mailflow.Stores.Claim.{Claim, new_claim, is_done, is_claimed, attempts_of}

pub record State : Type 0 where
  pub claims : Dict Text Claim
  pub ticks : ℕ

-- WHERE done = 0 AND (claimed = 0 OR now - claimed_at >= lease_seconds)
abbrev pub is_claimable : Time → ℕ → Claim → Bool
is_claimable now lease_seconds c =
    not c.done && (not c.claimed || leb (c.claimed_at + lease_seconds) now)

abbrev pub take_claim : Time → Claim → Claim
take_claim now c = record c { claimed = true; claimed_at = now }

-- INSERT OR IGNORE, and the UPDATE if the row was there.
abbrev pub claim_row : Text → ℕ → Time → Dict Text Claim → Option Claim → Bool × Dict Text Claim
claim_row key lease_seconds now claims none = (true, Dict.put claims key (new_claim true now))
claim_row key lease_seconds now claims (some c) =
    if is_claimable now lease_seconds c
    then (true, Dict.adjust claims key (take_claim now))
    else (false, claims)

abbrev pub one_more : Claim → Claim
one_more c = record c { attempts = c.attempts + 1 }

unfoldable pub record_attempt : Text → State → ℕ × State
record_attempt key s =
    let claims = Dict.adjust (Dict.put_new s.claims key (new_claim false 0)) key one_more in
    (attempts_of (Dict.get claims key), record s { claims = claims })

abbrev pub finish : Time → Claim → Claim
finish expiry c = record c { done = true; expires_at = some expiry }

-- UPDATE claims SET claimed = 0 WHERE key = ? AND done = 0
abbrev pub let_go : Claim → Claim
let_go c = if not c.done then record c { claimed = false } else c

unfoldable pub release : Text → State → State
release key s = record s { claims = Dict.adjust s.claims key let_go }

module _ (clock : ℕ → Time) where
  unfoldable pub try_claim : Text → ℕ → State → Bool × State
  try_claim key lease_seconds s =
      let now = clock s.ticks in
      let (won, claims) = claim_row key lease_seconds now s.claims (Dict.get s.claims key) in
      (won, record { claims = claims; ticks = s.ticks + 1 })

  unfoldable pub mark_done : Text → ℕ → State → State
  mark_done key ttl_seconds s = record {
    claims =
        Dict.adjust (Dict.put_new s.claims key (new_claim false 0)) key
          (finish (clock s.ticks + ttl_seconds));
    ticks = s.ticks + 1;
  }

-- WHERE done = 1 AND expires_at IS NOT NULL AND expires_at <= now
abbrev pub is_expired : Time → Claim → Bool
is_expired now c = c.done && elim c.expires_at [ none ↦ false | some t ↦ leb t now ]

-- DELETE, with the number of rows that it deletes.
unfoldable pub delete_expired : Time → Dict Text Claim → ℕ × Dict Text Claim
delete_expired now [] = (0, [])
delete_expired now ((k, c) ∷ d) =
    let (n, rest) = delete_expired now d in
    if is_expired now c then (n + 1, rest) else (n, (k, c) ∷ rest)

unfoldable pub purge_expired : Time → State → ℕ × State
unfolding delete_expired
purge_expired now s =
    let (n, claims) = delete_expired now s.claims in (n, record s { claims = claims })

unfoldable pub done : State → Text → Bool
done s k = is_done (Dict.get s.claims k)

unfoldable pub claimed : State → Text → Bool
claimed s k = is_claimed (Dict.get s.claims k)

unfoldable pub attempts : State → Text → ℕ
attempts s k = attempts_of (Dict.get s.claims k)
