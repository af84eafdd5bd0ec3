-- ===== src/Stores/SqliteDedupe/Lease.antt =====
-- Leases of `SqliteDedupeStore` (src/mailflow/stores/sqlite.py).
use mailflow.Base.{
  ℕ, ◌+◌, Text, text_Eq, text_eq_iff, true, false, ◌≡◌, arith, some, leb, if◌then◌else◌,
}
use mailflow.Dict
use mailflow.Dict.{Dict, NodupKeys, get-adjust}
use mailflow.Core.Models.{Time}
use mailflow.Stores.Claim.{Claim}
use mailflow.Stores.SqliteDedupe.{State, take_claim, try_claim}

-- A claim that is held and not done is refused, and kept as it is, while its lease runs; from the
-- moment at which the lease has run out it is handed to the worker that asks, with the lease started
-- again and everything else about the key, its attempts included, kept.
pub lease_decides :
    (clock : ℕ → Time) (k : Text) (lease : ℕ) (s : State) (c : Claim)
    → Dict.get s.claims k ≡ some c
    → c.claimed ≡ true
    → c.done ≡ false
    → let (won, s') = try_claim clock k lease s in
      (won ≡ leb (c.claimed_at + lease) (clock s.ticks))
      × (Dict.get s'.claims k
          ≡ some (
              if leb (c.claimed_at + lease) (clock s.ticks)
              then record c { claimed_at = clock s.ticks }
              else c))
unfolding try_claim
lease_decides clock k lease s c found held open_ = (
  ground arith,
  ground (arith, get-adjust s.claims k k (take_claim (clock s.ticks)), text_eq_iff k k),
)
