-- ===== src/Graph/Client/Attempts.antt =====
-- How often the loop of `GraphClient._request` in src/mailflow/adapters/graph/client.py calls the transport, and
-- what it returns.
use mailflow.Base.{
  ℕ, zero, suc, ◌+◌, ◌≤◌, ◌<◌, ◌==◌, leb, Text, text, Option, Bool-cases, inl, inr, ◌≡◌, arith,
  if◌then◌else◌,
}
use mailflow.Exec.{Exec, Result, ok, err, continue, ◌>>◌}
use mailflow.Dict.{or_default}
use mailflow.Json.{Json}
use mailflow.Graph.Client.{Response, Transport, settle, send, request_from}

module _ {X : Type 0} (transport : Transport X) where
  -- `calls` counts the requests that the transport was asked for.
  pub record Counts (calls : X → ℕ) : Type 0 where
    pub request_one :
        (token method url : Text) (json : Option Json) (x : X)
        → calls (transport.request token method url json x).1 ≡ suc (calls x)
    pub token_none : (x : X) → calls (transport.get_token x).1 ≡ calls x
    pub sleep_none : (t : Text) (x : X) → calls (transport.sleep_for t x).1 ≡ calls x

-- What a request that returns has returned.
abbrev pub Answered : {X : Type 0} → (X → ℕ) → ℕ → Result Response × X → Type 0
Answered calls bound (ok resp, x) = (resp.status_code < 400) × (calls x ≤ bound)
Answered calls bound (err e, x) = calls x ≤ bound

module _ {X : Type 0} (repr : Json → Text) (transport : Transport X) (calls : X → ℕ)
    (c : Counts transport calls) where
  settle-Answered :
      (resp : Response) (bound : ℕ) (x : X)
      → calls x ≤ bound
      → Answered calls bound (settle repr transport resp x)
  unfolding settle
  settle-Answered resp bound x h = elim (Bool-cases (leb 400 resp.status_code)) [
    | inl refused ↦ rw refused h
    | inr fine ↦ rw fine (ground arith)
  ]

  sent :
      (rest : Response → Exec X Response) (bound : ℕ) (method url : Text) (json : Option Json)
      (x : X)
      → suc (calls x) ≤ bound
      → ((resp : Response) (y : X) → calls y ≤ suc (calls x) → Answered calls bound (rest resp y))
      → Answered calls bound (continue (send repr transport method url json x) rest)
  unfolding send
  sent rest bound method url json x h k = with_token (transport.get_token x) (c.token_none x)
    where
      answered :
          (p : Result Response × X)
          → (calls p.1 ≤ suc (calls x))
          → Answered calls bound (continue p rest)
      answered (ok resp, y) le = k resp y le
      answered (err e, y) le = omega arith

      with_token :
          (p : Result Text × X)
          → (calls p.1 ≡ calls x)
          → Answered calls bound
              (continue (continue p λ token. transport.request token method url json) rest)
      with_token (ok token, y) same =
          answered (transport.request token method url json y)
            (omega (arith, c.request_one token method url json y))
      with_token (err e, y) same = omega arith

  weaker : (p : Result Response × X) (a b : ℕ) → Answered calls a p → a ≤ b → Answered calls b p
  weaker (ok resp, y) a b h k = (h.0, omega arith)
  weaker (err e, y) a b h k = omega arith

  slept :
      (rest : Exec X Response) (n bound : ℕ) (p : Result (Unit {0}) × X)
      → calls p.1 ≤ n
      → ((y : X) → calls y ≤ n → Answered calls bound (rest y))
      → n ≤ bound
      → Answered calls bound (continue p λ _. rest)
  slept rest n bound (ok u, y) h k le = k y h
  slept rest n bound (err e, y) h k le = omega arith

  -- The rest of the loop once a response is there, where what follows a sleep is known.
  retried :
      (again : Exec X Response) (n bound : ℕ) (resp : Response) (y : X)
      → calls y ≤ n
      → n ≤ bound
      → ((z : X) → calls z ≤ n → Answered calls bound (again z))
      → Answered calls bound (
          (if resp.status_code == 429
              then (transport.sleep_for (or_default (text "1") resp.retry_after) >> again)
              else settle repr transport resp)
            y)
  retried again n bound resp y h le ih = elim (Bool-cases (resp.status_code == 429)) [
    | inl busy ↦ rw busy (
        slept again n bound (transport.sleep_for (or_default (text "1") resp.retry_after) y)
          (omega (arith, c.sleep_none (or_default (text "1") resp.retry_after) y)) ih le)
    | inr other ↦ rw other (settle-Answered resp bound y (omega arith))
  ]

  -- A request asks the transport at most once more than its retries, whatever the transport, the tokens
  -- and the sleeping do, and what it returns is a response below 400. `calls` counts what the transport
  -- was asked for: one more by each of its requests, and none by a token or a sleep.
  pub request_from-Answered :
      (left : ℕ) (method url : Text) (json : Option Json) (x : X)
      → Answered calls (calls x + left + 1) (request_from repr transport left method url json x)
  unfolding request_from
  request_from-Answered zero method url json x =
      sent (settle repr transport) (calls x + 0 + 1) method url json x (omega arith)
        (λ resp y h. settle-Answered resp (calls x + 0 + 1) y (omega arith))
  request_from-Answered (suc left) method url json x =
      sent _ (calls x + suc left + 1) method url json x (omega arith) (λ resp y h.
        retried (request_from repr transport left method url json) (suc (calls x))
          (calls x + suc left + 1) resp y h (omega arith)
          (λ z k.
            weaker (request_from repr transport left method url json z) (calls z + left + 1) _
              (request_from-Answered left method url json z) (omega arith)))
