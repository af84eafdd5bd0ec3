-- ===== src/Stores/Claim.antt =====
-- What the dedupe stores of src/mailflow/stores say of a key, given its row if there is one.
use mailflow.Base.{ℕ, Bool, false, Option, none, some}
use mailflow.Core.Models.{Time}

-- `_ClaimRecord`, with the column `claimed_at` that only the table has.
pub record Claim : Type 0 where
  pub claimed : Bool
  pub done : Bool
  pub attempts : ℕ
  pub claimed_at : Time
  pub expires_at : Option Time

abbrev pub new_claim : Bool → Time → Claim
new_claim claimed claimed_at = record {
  claimed = claimed;
  done = false;
  attempts = 0;
  claimed_at = claimed_at;
  expires_at = none;
}

abbrev pub is_done : Option Claim → Bool
is_done none = false
is_done (some c) = c.done

abbrev pub is_claimed : Option Claim → Bool
is_claimed none = false
is_claimed (some c) = c.claimed

abbrev pub attempts_of : Option Claim → ℕ
attempts_of none = 0
attempts_of (some c) = c.attempts
