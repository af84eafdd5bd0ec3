-- ===== src/Stores/SqliteDedupe/Laws.antt =====
-- The laws of a dedupe store, for the table.
use mailflow.Base.{
  ℕ, ◌+◌, Text, text_eq, text_Eq, text_eq_iff, true, false, ◌≡◌, arith, if◌then◌else◌,
}
use mailflow.Dict
use mailflow.Dict.{get-put, get-put_new, get-adjust}
use mailflow.Core.Models.{Time}
use mailflow.Ports.{DedupeStore}
use mailflow.Stores.Claim.{new_claim}
use mailflow.Stores.SqliteDedupe.{
  State, try_claim, record_attempt, mark_done, release, done, claimed, attempts, take_claim,
  one_more, finish, let_go,
}

module _ (clock : ℕ → Time) (k : Text) (s : State) (j : Text) where
  pub done-try_claim : (l : ℕ) → done (try_claim clock k l s).1 j ≡ done s j
  unfolding try_claim done
  done-try_claim l = ground (
    arith,
    get-put s.claims k j (new_claim true (clock s.ticks)),
    get-adjust s.claims k j (take_claim (clock s.ticks)),
    text_eq_iff k j,
  )

  pub attempts-try_claim : (l : ℕ) → attempts (try_claim clock k l s).1 j ≡ attempts s j
  unfolding try_claim attempts
  attempts-try_claim l = ground (
    arith,
    get-put s.claims k j (new_claim true (clock s.ticks)),
    get-adjust s.claims k j (take_claim (clock s.ticks)),
    text_eq_iff k j,
  )

  pub attempts-record_attempt :
      attempts (record_attempt k s).1 j ≡ (if text_eq k j then attempts s j + 1 else attempts s j)
  unfolding record_attempt attempts
  attempts-record_attempt = ground (
    arith,
    get-adjust (Dict.put_new s.claims k (new_claim false 0)) k j one_more,
    get-put_new s.claims k j (new_claim false 0),
  )

  pub done-record_attempt : done (record_attempt k s).1 j ≡ done s j
  unfolding record_attempt done
  done-record_attempt = ground (
    arith,
    get-adjust (Dict.put_new s.claims k (new_claim false 0)) k j one_more,
    get-put_new s.claims k j (new_claim false 0),
  )

  pub done-release : done (release k s) j ≡ done s j
  unfolding release done
  done-release = ground (arith, get-adjust s.claims k j let_go)

  pub attempts-release : attempts (release k s) j ≡ attempts s j
  unfolding release attempts
  attempts-release = ground (arith, get-adjust s.claims k j let_go)

  pub done-mark_done :
      (t : ℕ) → done (mark_done clock k t s) j ≡ (if text_eq k j then true else done s j)
  unfolding mark_done done
  done-mark_done t = ground (
    arith,
    get-adjust (Dict.put_new s.claims k (new_claim false 0)) k j (finish (clock s.ticks + t)),
    get-put_new s.claims k j (new_claim false 0),
  )

  pub attempts-mark_done : (t : ℕ) → attempts (mark_done clock k t s) j ≡ attempts s j
  unfolding mark_done attempts
  attempts-mark_done t = ground (
    arith,
    get-adjust (Dict.put_new s.claims k (new_claim false 0)) k j (finish (clock s.ticks + t)),
    get-put_new s.claims k j (new_claim false 0),
  )

module _ (clock : ℕ → Time) (k : Text) (s : State) where
  pub won-done : (l : ℕ) → (try_claim clock k l s).0 ≡ true → done s k ≡ false
  unfolding try_claim done
  won-done l h = ground arith

  pub free-won : (l : ℕ) → claimed s k ≡ false → done s k ≡ false → (try_claim clock k l s).0 ≡ true
  unfolding try_claim done claimed
  free-won l h g = ground arith

  pub record_attempt-value : (record_attempt k s).0 ≡ attempts s k + 1
  unfolding record_attempt attempts
  record_attempt-value = ground (
    arith,
    get-adjust (Dict.put_new s.claims k (new_claim false 0)) k k one_more,
    get-put_new s.claims k k (new_claim false 0),
    text_eq_iff k k,
  )

  pub claimed-release : done s k ≡ false → claimed (release k s) k ≡ false
  unfolding release done claimed
  claimed-release h = ground (arith, get-adjust s.claims k k let_go, text_eq_iff k k)

abbrev pub sqlite_dedupe : (ℕ → Time) → DedupeStore
sqlite_dedupe clock = record {
  State = State;
  try_claim = try_claim clock;
  record_attempt = record_attempt;
  mark_done = mark_done clock;
  release = release;
  done = done;
  claimed = claimed;
  attempts = attempts;
  won-done = λ k l s. won-done clock k s l;
  free-won = λ k l s. free-won clock k s l;
  done-try_claim = λ k l s j. done-try_claim clock k s j l;
  attempts-try_claim = λ k l s j. attempts-try_claim clock k s j l;
  record_attempt-value = record_attempt-value clock;
  attempts-record_attempt = attempts-record_attempt clock;
  done-record_attempt = done-record_attempt clock;
  done-mark_done = λ k t s j. done-mark_done clock k s j t;
  attempts-mark_done = λ k t s j. attempts-mark_done clock k s j t;
  done-release = done-release clock;
  attempts-release = attempts-release clock;
  claimed-release = claimed-release clock;
}
