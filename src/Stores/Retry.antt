-- ===== src/Stores/Retry.antt =====
-- `connect_with_retry` of src/mailflow/stores/_retry.py. The connection is a parameter that may raise; the
-- state is that of the outside, and the delays that were slept, in the unit of `base_delay`.
use mailflow.Base.{
  ℕ, zero, suc, ◌+◌, ◌*◌, ◌≤◌, ltb, text, Option, none, some, List, [], ◌∷◌, ◌++◌, ◌≡◌, refl, ap,
  sym, ◌∙◌, arith, if◌then◌else◌,
}
use mathlib.Core.List.{append_assoc, append-nil}
use mailflow.Exec.{Exec, Exc, unknown, Result, ok, err}
use mailflow.Dict.{or_default}

unfoldable pub pow2 : ℕ → ℕ
pow2 zero = 1
pow2 (suc n) = pow2 n + pow2 n

-- `assert last_exc is not None`
abbrev pub no_attempt : Exc
no_attempt = record { kind = unknown; class_name = text "AssertionError"; message = [] }

module _ {X A : Type 0} (connect_fn : Exec X A) (attempts base_delay : ℕ) where
  -- What is slept after a failed attempt.
  abbrev pub sleep_after : ℕ → List ℕ → List ℕ
  sleep_after attempt slept =
      if ltb (suc attempt) attempts then slept ++ ((base_delay * pow2 attempt) ∷ []) else slept

  -- The loop, with so many attempts to go.
  unfoldable pub connect_from : ℕ → ℕ → Option Exc → Exec (X × List ℕ) A
  connect_from zero attempt last s = (err (or_default no_attempt last), s)
  connect_from (suc left) attempt last (x, slept) =
      let (r, x') = connect_fn x in
      elim r [
        | ok a ↦ (ok a, (x', slept))
        | err e ↦ connect_from left (suc attempt) (some e) (x', sleep_after attempt slept)
      ]

  unfoldable pub connect_with_retry : Exec (X × List ℕ) A
  connect_with_retry s = connect_from attempts 0 none s

  -- The delays after so many attempts from a given one.
  abbrev pub delays : ℕ → ℕ → List ℕ
  delays attempt zero = []
  delays attempt (suc n) = (base_delay * pow2 attempt) ∷ delays (suc attempt) n

  -- The delays that were slept are the first few of the series; all but the last attempt sleep, so
  -- where every attempt has failed there is one fewer than there were attempts.
  pub record Waited (attempt left : ℕ) (slept : List ℕ) (p : Result A × (X × List ℕ)) : Type 0 where
    pub sleeps : ℕ
    pub series : p.1.1 ≡ slept ++ delays attempt sleeps
    pub fewer : suc sleeps ≤ left
    pub failed : (e : Exc) → p.0 ≡ err e → suc sleeps ≡ left

  sleep_on :
      (attempt left : ℕ) (slept : List ℕ)
      → suc (suc left) + attempt ≡ attempts
      → sleep_after attempt slept ≡ slept ++ ((base_delay * pow2 attempt) ∷ [])
  sleep_on attempt left slept h = ground arith

  sleep_last :
      (attempt : ℕ) (slept : List ℕ) → suc attempt ≡ attempts → sleep_after attempt slept ≡ slept
  sleep_last attempt slept h = ground arith

  one_more :
      (attempt left : ℕ) (slept : List ℕ) (p : Result A × (X × List ℕ))
      → Waited (suc attempt) (suc left) (slept ++ ((base_delay * pow2 attempt) ∷ [])) p
      → Waited attempt (suc (suc left)) slept p
  one_more attempt left slept p h = record {
    sleeps = suc h.sleeps;
    series =
        h.series
        ∙ append_assoc slept ((base_delay * pow2 attempt) ∷ []) (delays (suc attempt) h.sleeps);
    fewer = omega (arith, h.fewer);
    failed = λ e q. ap suc (h.failed e q);
  }

  connect_from-Waited :
      (left attempt : ℕ) (last : Option Exc) (x : X) (slept : List ℕ)
      → suc left + attempt ≡ attempts
      → Waited attempt (suc left) slept (connect_from (suc left) attempt last (x, slept))
  unfolding connect_from
  connect_from-Waited zero attempt last x slept h = tried (connect_fn x)
    where
      tried :
          (p : Result A × X)
          → Waited attempt 1 slept (elim p.0 as (λ _. Result A × (X × List ℕ)) [
            | ok a ↦ (ok a, (p.1, slept))
            | err e ↦ (err e, (p.1, sleep_after attempt slept))
          ])
      tried (ok a, x') = record {
        sleeps = 0;
        series = sym (append-nil slept);
        fewer = omega arith;
        failed = λ e q. cc;
      }
      tried (err e, x') = record {
        sleeps = 0;
        series = sleep_last attempt slept (omega arith) ∙ sym (append-nil slept);
        fewer = omega arith;
        failed = λ e q. refl;
      }
  connect_from-Waited (suc left) attempt last x slept h = tried (connect_fn x) λ e x'.
      connect_from-Waited left (suc attempt) (some e) x'
        (slept ++ ((base_delay * pow2 attempt) ∷ [])) (omega arith)
    where
      tried :
          (p : Result A × X)
          → ((e : Exc) (x' : X)
              → Waited (suc attempt) (suc left) (slept ++ ((base_delay * pow2 attempt) ∷ [])) (
                  connect_from
                    (suc left)
                    (suc attempt)
                    (some e)
                    (x', slept ++ ((base_delay * pow2 attempt) ∷ []))))
          → Waited attempt (suc (suc left)) slept (elim p.0 as (λ _. Result A × (X × List ℕ)) [
            | ok a ↦ (ok a, (p.1, slept))
            | err e ↦
                connect_from (suc left) (suc attempt) (some e) (p.1, sleep_after attempt slept)
          ])
      tried (ok a, x') ih = record {
        sleeps = 0;
        series = sym (append-nil slept);
        fewer = omega arith;
        failed = λ e q. cc;
      }
      tried (err e, x') ih =
          rw (sleep_on attempt left slept h) (one_more attempt left slept _ (ih e x'))

  -- With at least one attempt allowed, however the attempts to connect end, the delays that were slept
  -- are the first few of the doubling series that starts at `base_delay`, fewer than the attempts that
  -- are allowed, and exactly one fewer where it raises: it raises after the last attempt alone, and
  -- does not sleep after it.
  pub connect_with_retry-Waited :
      (x : X) → 1 ≤ attempts → Waited 0 attempts [] (connect_with_retry (x, []))
  unfolding connect_with_retry
  connect_with_retry-Waited x h = go attempts refl
    where
      go : (n : ℕ) → n ≡ attempts → Waited 0 n [] (connect_from n 0 none (x, []))
      go zero e = absurd (contradiction e)
        where
          contradiction : 0 ≡ attempts → ⊥
          contradiction e = ground arith
      go (suc n) e = connect_from-Waited n 0 none x [] (omega arith)
