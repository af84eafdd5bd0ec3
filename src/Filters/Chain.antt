-- ===== src/Filters/Chain.antt =====
-- src/mailflow/filters/chain.py. A filter of the chain may be the caller's, and may raise.
use mailflow.Base.{Bool, true, false, List, [], ◌∷◌, ◌++◌, ◌≡◌, refl, arith, if◌then◌else◌}
use mailflow.Exec.{Exec, ok, err, pure, ◌>>=◌}
use mailflow.Core.Models.{Envelope, Decision, keep, drop, uncertain}
use mailflow.Core.Filtering
use mailflow.Core.Filtering.{FilterContext, FilterDecision}

abbrev pub Filter : Type 0 → Type 0
Filter X = Envelope → FilterContext → Exec X FilterDecision

-- `decision in (Decision.keep, Decision.drop)`
abbrev pub is_decisive : Decision → Bool
is_decisive keep = true
is_decisive drop = true
is_decisive uncertain = false

module _ {X : Type 0} where
  unfoldable pub run_chain : List (Filter X) → Envelope → FilterContext → Exec X FilterDecision
  run_chain [] env ctx x = (ok Filtering.uncertain, x)
  run_chain (f ∷ fs) env ctx x =
      let (r, x') = f env ctx x in
      elim r [
        | ok d ↦ if is_decisive d.decision then (ok d, x') else run_chain fs env ctx x'
        | err e ↦ (err e, x')
      ]

  -- The second half of a chain decides exactly what the first half has left uncertain.
  pub run_chain-append :
      (fs gs : List (Filter X)) (env : Envelope) (ctx : FilterContext) (x : X)
      → run_chain (fs ++ gs) env ctx x
        ≡ (run_chain fs env ctx >>= λ d.
              if is_decisive d.decision then pure d else run_chain gs env ctx)
            x
  unfolding run_chain
  run_chain-append [] gs env ctx x = refl
  run_chain-append (f ∷ fs) gs env ctx x =
      ground (arith, run_chain-append fs gs env ctx (f env ctx x).1)
