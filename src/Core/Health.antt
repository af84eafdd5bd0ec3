-- ===== src/Core/Health.antt =====
-- The health probe of src/mailflow/core/observability.py. The probes are operations of stores that may
-- raise; times are whole seconds.
use mailflow.Base.{
  ℕ, ◌+◌, ◌-◌, leb, Text, text, text_eq, show_nat, Bool, true, false, ◌&&◌, Option, none, some, [],
  ◌∷◌, ◌++◌, ◌≡◌, refl, arith, if◌then◌else◌,
}
use mailflow.Exec.{Exec, Result, ok, err}
use mailflow.Core.Models.{Cursor, StreamRef, Time}
use mailflow.Dict.{Dict}

pub record HealthReport : Type 0 where
  pub healthy : Bool
  pub checks : Dict Text Text

abbrev pub probe_stream : StreamRef
probe_stream = record { mailbox = text "__healthcheck__"; folder = none }

-- What the probe calls of the stores, and whether the blob store satisfies its port.
pub record Probed (X : Type 0) : Type 0 where
  pub get : Text → StreamRef → Exec X (Option Cursor)
  pub try_claim : Text → ℕ → Exec X Bool
  pub release : Text → Exec X (Unit {0})
  pub is_blob_store : Bool

-- "ok", or the failure.
abbrev pub verdict : {A : Type 0} → Result A → Text
verdict (ok a) = text "ok"
verdict (err e) = text "error: " ++ e.message

abbrev pub blob_verdict : Bool → Text
blob_verdict true = text "ok"
blob_verdict false = text "error: does not satisfy BlobStore port"

-- The check of the ingestion, with `now` and the budget given.
unfoldable pub ingestion_verdict : Option Time → Time → ℕ → Text
ingestion_verdict none now max_idle_seconds = text "stale: no activity recorded yet"
ingestion_verdict (some last) now max_idle_seconds =
    if leb now (max_idle_seconds + last)
    then text "ok"
    else text "stale: no activity for "
      ++ (show_nat (now - last) ++ (text "s (budget " ++ (show_nat max_idle_seconds ++ text "s)")))

abbrev pub ingestion_checks : Option Time → Option Time → Option ℕ → Dict Text Text
ingestion_checks last (some now) (some budget) =
    (text "ingestion", ingestion_verdict last now budget) ∷ []
ingestion_checks last none budget = []
ingestion_checks last (some now) none = []

-- all(v == "ok" for v in checks.values())
unfoldable pub all_ok : Dict Text Text → Bool
unfolding text_eq
all_ok [] = true
all_ok ((k, v) ∷ checks) = text_eq v (text "ok") && all_ok checks

module _ {X : Type 0} (stores : Probed X) where
  -- The first two checks, and the release that follows whatever the claim did.
  unfoldable pub probe : X → (Text × Text) × X
  probe x =
      let (cursor, x1) = stores.get (text "__healthcheck__") probe_stream x in
      let (claim, x2) = stores.try_claim (text "__healthcheck__") 1 x1 in
      ((verdict cursor, verdict claim), (stores.release (text "__healthcheck__") x2).1)

  unfoldable pub health : Option Time → Option Time → Option ℕ → X → HealthReport × X
  unfolding probe all_ok
  health last_activity_at now max_idle_seconds x =
      let (found, x') = probe x in
      let checks =
        (text "cursor", found.0)
        ∷ (text "dedupe", found.1)
        ∷ (text "blob", blob_verdict stores.is_blob_store)
        ∷ ingestion_checks last_activity_at now max_idle_seconds in
      (record { healthy = all_ok checks; checks = checks }, x')

abbrev pub is_ok : {A : Type 0} → Result A → Bool
is_ok (ok a) = true
is_ok (err e) = false

-- Whether the loop that consumes messages has shown activity within the budget, if both are given.
abbrev pub is_live : Option Time → Option Time → Option ℕ → Bool
is_live last none budget = true
is_live last (some now) none = true
is_live none (some now) (some budget) = false
is_live (some last) (some now) (some budget) = leb now (budget + last)

verdict-ok : {A : Type 0} (r : Result A) → text_eq (verdict r) (text "ok") ≡ is_ok r
unfolding text_eq
verdict-ok (ok a) = refl
verdict-ok (err e) = refl

blob_verdict-ok : (b : Bool) → text_eq (blob_verdict b) (text "ok") ≡ b
unfolding text_eq
blob_verdict-ok true = refl
blob_verdict-ok false = refl

ingestion-ok :
    (last now : Option Time) (budget : Option ℕ)
    → all_ok (ingestion_checks last now budget) ≡ is_live last now budget
unfolding all_ok ingestion_verdict text_eq
ingestion-ok last none budget = refl
ingestion-ok last (some now) none = refl
ingestion-ok none (some now) (some budget) = refl
ingestion-ok (some last) (some now) (some budget) = ground arith

-- A health report is healthy exactly if the cursor store answered the read, the dedupe store answered
-- the claim (won or not), the blob store satisfies its port and, where the time and the budget are
-- given, the last activity lies within the budget; whether the release raised does not count.
pub health-is_live :
    {X : Type 0} (stores : Probed X) (last now : Option Time) (budget : Option ℕ) (x : X)
    → let (cursor, x1) = stores.get (text "__healthcheck__") probe_stream x in
      (health stores last now budget x).0.healthy ≡ (
        is_ok cursor
        && (is_ok (stores.try_claim (text "__healthcheck__") 1 x1).0
            && (stores.is_blob_store && is_live last now budget)))
unfolding health probe all_ok
health-is_live stores last now budget x =
    let (cursor, x1) = stores.get (text "__healthcheck__") probe_stream x in
    let claim = (stores.try_claim (text "__healthcheck__") 1 x1).0 in
    rw
      (
        verdict-ok cursor,
        verdict-ok claim,
        blob_verdict-ok stores.is_blob_store,
        ingestion-ok last now budget,
      )
      refl
