-- ===== src/Stores/MemoryDedupe.antt =====
-- `InMemoryDedupeStore` of src/mailflow/stores/memory.py.
-- `clock n` is the reading of `time.time()` at its n-th call. The column `claimed_at` stays 0.
pub mod Laws
use mailflow.Base.{
  ℕ, ◌+◌, Text, text_eq, text_Eq, text_eq_iff, Bool, true, false, ◌&&◌, ◌||◌, Option, none, some,
  List, [], ◌∷◌, leb, length, ◌≡◌, arith, if◌then◌else◌,
}
use mailflow.Dict
use mailflow.Dict.{Dict, get-put, get-put_new, get-adjust}
use mailflow.Core.Models.{Time}
use mailflow.Ports.{DedupeStore}
use mailflow.Stores.Claim.{Claim, new_claim, is_done, is_claimed, attempts_of}

pub record State : Type 0 where
  pub claims : Dict Text Claim
  pub ticks : ℕ

-- `rec.claimed = True`
abbrev take_claim : Claim → Claim
take_claim c = record c { claimed = true }

-- The ladder of `try_claim` on the record of the key.
abbrev claim_record : Text → State → Option Claim → Bool × State
claim_record key s none = (true, record s { claims = Dict.put s.claims key (new_claim true 0) })
claim_record key s (some c) =
    if c.done || c.claimed
    then (false, s)
    else (true, record s { claims = Dict.adjust s.claims key take_claim })

unfoldable pub try_claim : Text → ℕ → State → Bool × State
try_claim key lease_seconds s = claim_record key s (Dict.get s.claims key)

abbrev one_more : Claim → Claim
one_more c = record c { attempts = c.attempts + 1 }

unfoldable pub record_attempt : Text → State → ℕ × State
record_attempt key s =
    let claims = Dict.adjust (Dict.put_new s.claims key (new_claim true 0)) key one_more in
    (attempts_of (Dict.get claims key), record s { claims = claims })

abbrev finish : Time → Claim → Claim
finish expiry c = record c { done = true; expires_at = some expiry }

module _ (clock : ℕ → Time) where
  unfoldable pub mark_done : Text → ℕ → State → State
  mark_done key ttl_seconds s = record {
    claims =
        Dict.adjust (Dict.put_new s.claims key (new_claim false 0)) key
          (finish (clock s.ticks + ttl_seconds));
    ticks = s.ticks + 1;
  }

abbrev let_go : Claim → Claim
let_go c = if c.done then c else record c { claimed = false }

unfoldable pub release : Text → State → State
release key s = record s { claims = Dict.adjust s.claims key let_go }

-- The test of `purge_expired` on a record.
abbrev pub is_expired : Time → Claim → Bool
is_expired now c = c.done && elim c.expires_at [ none ↦ false | some t ↦ leb t now ]

unfoldable pub expired_keys : Time → Dict Text Claim → List Text
expired_keys now [] = []
expired_keys now ((k, c) ∷ d) =
    let rest = expired_keys now d in if is_expired now c then k ∷ rest else rest

unfoldable pub delete_keys : List Text → Dict Text Claim → Dict Text Claim
delete_keys [] d = d
delete_keys (k ∷ ks) d = delete_keys ks (Dict.remove d k)

unfoldable pub purge_expired : Time → State → ℕ × State
unfolding expired_keys delete_keys
purge_expired now s =
    let expired = expired_keys now s.claims in
    (length expired, record s { claims = delete_keys expired s.claims })

unfoldable pub done : State → Text → Bool
done s k = is_done (Dict.get s.claims k)

unfoldable pub claimed : State → Text → Bool
claimed s k = is_claimed (Dict.get s.claims k)

unfoldable pub attempts : State → Text → ℕ
attempts s k = attempts_of (Dict.get s.claims k)
