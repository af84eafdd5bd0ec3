-- ===== src/Gmail/Client/Attempts.antt =====
-- How often the loop of `GmailClient._request_inner` in src/mailflow/adapters/gmail/client.py calls the transport
-- and refreshes the token, how long it waits, and what its semaphore holds afterwards.
use mailflow.Base.{
  ℕ, zero, suc, ◌+◌, ◌≤◌, ◌<◌, ◌==◌, leb, Bool, true, false, Text, Option, none, some, Bool-cases,
  inl, inr, ◌≡◌, refl, sym, arith, if◌then◌else◌,
}
use mailflow.Exec.{Exec, Exc, Result, ok, err, raise, continue, ◌>>◌}
use mailflow.Json.{Json}
use mailflow.Gmail.Client.{
  Response, Transport, GmailClient, Slots, cap_reached, settle, network_error, backoff_delay,
  backoff_sleep, is_busy, retry, refresh_or, refresh_then, on_sent, turn, refreshed_from,
  attempts_from, request_inner, request,
}

-- `calls` counts the requests that the transport was asked for, and `refreshes` those of a new token.
pub record Counts {X : Type 0} (t : Transport X) (calls refreshes : X → ℕ) : Type 0 where
  pub request_one :
      (token method url : Text) (json : Option Json) (x : X)
      → (calls (t.request token method url json x).1 ≡ suc (calls x))
        × (refreshes (t.request token method url json x).1 ≡ refreshes x)
  pub token_none :
      (x : X) → (calls (t.get_token x).1 ≡ calls x) × (refreshes (t.get_token x).1 ≡ refreshes x)
  pub uniform_none :
      (n : ℕ) (x : X)
      → (calls (t.uniform n x).1 ≡ calls x) × (refreshes (t.uniform n x).1 ≡ refreshes x)
  pub sleep_none :
      (n : ℕ) (x : X)
      → (calls (t.sleep n x).1 ≡ calls x) × (refreshes (t.sleep n x).1 ≡ refreshes x)
  pub refresh_one :
      (r : Exec X (Unit {0})) (x : X)
      → t.force_refresh ≡ some r
      → (calls (r x).1 ≡ calls x) × (refreshes (r x).1 ≤ suc (refreshes x))

-- What the loop returns, and at most how many requests and refreshes were made.
abbrev pub Answered : {X : Type 0} → (X → ℕ) → (X → ℕ) → ℕ → ℕ → Result Response × X → Type 0
Answered calls refreshes n m (ok resp, x) =
    (resp.status_code < 400) × (calls x ≤ n) × (refreshes x ≤ m)
Answered calls refreshes n m (err e, x) = (calls x ≤ n) × (refreshes x ≤ m)

module _ {X : Type 0} (client : GmailClient X) (calls refreshes : X → ℕ)
    (c : Counts client.transport calls refreshes) where
  abbrev Upto : ℕ → ℕ → X → Type 0
  Upto n m x = (calls x ≤ n) × (refreshes x ≤ m)

  -- An action that keeps to bounds, from any state within others.
  abbrev Within : ℕ → ℕ → ℕ → ℕ → Exec X Response → Type 0
  Within a b n m f = (x : X) → Upto a b x → Answered calls refreshes n m (f x)

  abbrev WithinOption : ℕ → ℕ → ℕ → ℕ → Option (Exec X Response) → Type 0
  WithinOption a b n m none = Unit
  WithinOption a b n m (some f) = Within a b n m f

  settle-Within :
      (resp : Response) (a b n m : ℕ) → a ≤ n → b ≤ m → Within a b n m (settle client resp)
  unfolding settle
  settle-Within resp a b n m h k x u = elim (Bool-cases (leb 400 resp.status_code)) [
    | inl refused ↦ rw refused (omega arith, omega arith)
    | inr fine ↦ rw fine (ground arith)
  ]

  backoff-Within :
      (attempt : ℕ) (after : Option Text) (again : Exec X Response) (a b n m : ℕ)
      → a ≤ n
      → b ≤ m
      → Within a b n m again
      → Within a b n m (backoff_sleep client attempt after >> again)
  unfolding backoff_sleep
  backoff-Within attempt after again a b n m h k w x u =
      jittered (client.transport.uniform client.backoff_base x)
        (c.uniform_none client.backoff_base x)
    where
      slept :
          (p : Result (Unit {0}) × X)
          → Upto a b p.1
          → Answered calls refreshes n m (continue p λ _. again)
      slept (ok t, y) v = w y v
      slept (err e, y) v = (omega arith, omega arith)

      jittered :
          (p : Result ℕ × X)
          → ((calls p.1 ≡ calls x) × (refreshes p.1 ≡ refreshes x))
          → Answered calls refreshes n m (
              continue
                (continue p λ j. client.transport.sleep (backoff_delay client attempt after j))
                λ _. again)
      jittered (ok j, y) v =
          slept (client.transport.sleep (backoff_delay client attempt after j) y) (
            omega (arith, c.sleep_none (backoff_delay client attempt after j) y),
            omega (arith, c.sleep_none (backoff_delay client attempt after j) y),
          )
      jittered (err e, y) v = (omega arith, omega arith)

  raise-Within : (e : Exc) (a b n m : ℕ) → a ≤ n → b ≤ m → Within a b n m (raise e)
  raise-Within e a b n m h k x u = (omega arith, omega arith)

  retry-Within :
      (attempt : ℕ) (after : Option Text) (again : Option (Exec X Response))
      (otherwise : Exec X Response) (a b n m : ℕ)
      → a ≤ n
      → b ≤ m
      → WithinOption a b n m again
      → Within a b n m otherwise
      → Within a b n m (retry client attempt after again otherwise)
  retry-Within attempt after none otherwise a b n m h k w v = v
  retry-Within attempt after (some again) otherwise a b n m h k w v =
      backoff-Within attempt after again a b n m h k w

  refresh_or-Within :
      (refreshed : Option (Exec X Response)) (otherwise : Exec X Response) (a b n m : ℕ)
      → WithinOption a b n m refreshed
      → Within a b n m otherwise
      → Within a b n m (refresh_or client refreshed otherwise)
  refresh_or-Within none otherwise a b n m w v = v
  refresh_or-Within (some f) otherwise a b n m w v = w

  if-Within :
      (t : Bool) (f g : Exec X Response) (a b n m : ℕ)
      → Within a b n m f
      → Within a b n m g
      → Within a b n m (if t then f else g)
  if-Within true f g a b n m v w = v
  if-Within false f g a b n m v w = w

  on_sent-Within :
      (attempt : ℕ) (again refreshed : Option (Exec X Response)) (r : Result Response) (a b n m : ℕ)
      → a ≤ n
      → b ≤ m
      → WithinOption a b n m again
      → WithinOption a b n m refreshed
      → Within a b n m (on_sent client attempt again refreshed r)
  on_sent-Within attempt again refreshed (err e) a b n m h k v w =
      retry-Within attempt none again _ a b n m h k v
        (raise-Within (network_error client e) a b n m h k)
  on_sent-Within attempt again refreshed (ok resp) a b n m h k v w =
      if-Within (is_busy client resp.status_code) _ last a b n m
        (retry-Within attempt resp.retry_after again last a b n m h k v last-Within) last-Within
    where
      last : Exec X Response
      last =
          if resp.status_code == 401
          then refresh_or client refreshed (settle client resp)
          else settle client resp

      last-Within : Within a b n m last
      last-Within =
          if-Within (resp.status_code == 401) _ _ a b n m
            (refresh_or-Within refreshed (settle client resp) a b n m w
              (settle-Within resp a b n m h k))
            (settle-Within resp a b n m h k)

  turn-Within :
      (attempt : ℕ) (again refreshed : Option (Exec X Response)) (method url : Text)
      (json : Option Json) (a b n m : ℕ)
      → suc a ≤ n
      → b ≤ m
      → WithinOption (suc a) b n m again
      → WithinOption (suc a) b n m refreshed
      → Within a b n m (turn client attempt again refreshed method url json)
  unfolding turn
  turn-Within attempt again refreshed method url json a b n m h k v w x u =
      with_token (client.transport.get_token x) (c.token_none x)
    where
      with_token :
          (p : Result Text × X)
          → ((calls p.1 ≡ calls x) × (refreshes p.1 ≡ refreshes x))
          → Answered calls refreshes n m (
              continue
                (continue p λ token y.
                  let (r, z) = client.transport.request token method url json y in (ok r, z))
                (on_sent client attempt again refreshed))
      with_token (err e, y) q = (omega arith, omega arith)
      with_token (ok token, y) q =
          let p = client.transport.request token method url json y in
          on_sent-Within attempt again refreshed p.0 (suc a) b n m h k v w p.1 (
            omega (arith, c.request_one token method url json y),
            omega (arith, c.request_one token method url json y),
          )

  refreshed_from-Within :
      (left attempt : ℕ) (method url : Text) (json : Option Json) (a b n m : ℕ)
      → a + left + 1 ≤ n
      → b ≤ m
      → Within a b n m (refreshed_from client left attempt method url json)
  unfolding refreshed_from
  refreshed_from-Within zero attempt method url json a b n m h k =
      turn-Within attempt none none method url json a b n m (omega arith) k tt tt
  refreshed_from-Within (suc left) attempt method url json a b n m h k =
      turn-Within attempt (some (refreshed_from client left (suc attempt) method url json)) none
        method url json a b n m (omega arith) k
        (refreshed_from-Within left (suc attempt) method url json (suc a) b n m (omega arith) k) tt

  refresh_then-Within :
      (refresh : Option (Exec X (Unit {0}))) (rest : Exec X Response) (a b n m : ℕ)
      → refresh ≡ client.transport.force_refresh
      → a ≤ n
      → suc b ≤ m
      → Within a (suc b) n m rest
      → WithinOption a b n m (refresh_then client refresh rest)
  refresh_then-Within none rest a b n m e h k w = tt
  refresh_then-Within (some refresh) rest a b n m e h k w =
      λ x u. refreshed x u (refresh x) (c.refresh_one refresh x (sym e))
    where
      refreshed :
          (x : X)
          → Upto a b x
          → (p : Result (Unit {0}) × X)
          → ((calls p.1 ≡ calls x) × (refreshes p.1 ≤ suc (refreshes x)))
          → Answered calls refreshes n m (continue p λ _. rest)
      refreshed x u (ok t, y) q = w y (omega arith, omega arith)
      refreshed x u (err z, y) q = (omega arith, omega arith)

  attempts_from-Within :
      (left attempt : ℕ) (method url : Text) (json : Option Json) (a b n m : ℕ)
      → a + left + 2 ≤ n
      → suc b ≤ m
      → Within a b n m (attempts_from client left attempt method url json)
  unfolding attempts_from
  attempts_from-Within zero attempt method url json a b n m h k =
      turn-Within attempt none
        (refresh_then client client.transport.force_refresh
          (refreshed_from client zero attempt method url json))
        method url json a b n m (omega arith) (omega arith) tt
        (refresh_then-Within client.transport.force_refresh
          (refreshed_from client zero attempt method url json) (suc a) b n m refl (omega arith) k
          (refreshed_from-Within zero attempt method url json (suc a) (suc b) n m (omega arith) k))
  attempts_from-Within (suc left) attempt method url json a b n m h k =
      turn-Within attempt (some (attempts_from client left (suc attempt) method url json))
        (refresh_then client client.transport.force_refresh
          (refreshed_from client (suc left) attempt method url json))
        method url json a b n m (omega arith) (omega arith)
        (attempts_from-Within left (suc attempt) method url json (suc a) b n m (omega arith) k)
        (refresh_then-Within client.transport.force_refresh
          (refreshed_from client (suc left) attempt method url json) (suc a) b n m refl
          (omega arith) k
          (refreshed_from-Within (suc left) attempt method url json (suc a) (suc b) n m
            (omega arith) k))

  -- A request asks the transport at most twice more than its retries, and refreshes the token at most
  -- once, whatever the transport, the tokens, the jitter and the sleeping do; what it returns is a
  -- response below 400. The counters go up by one with each request and by at most one with a
  -- refresh, and nothing else moves them.
  pub request_inner-Answered :
      (method url : Text) (json : Option Json) (x : X)
      → Answered calls refreshes
          (calls x + client.max_retries + 2)
          (refreshes x + 1)
          (request_inner client method url json x)
  unfolding request_inner
  request_inner-Answered method url json x =
      attempts_from-Within client.max_retries 0 method url json (calls x) (refreshes x) _ _
        (omega arith) (omega arith) x (omega arith, omega arith)

-- A request gives its place back, whether it returns or raises; where no place is free it raises a
-- transient error and does nothing else.
pub request-free :
    {X : Type 0} (client : GmailClient X) (method url : Text) (json : Option Json) (s : Slots X)
    → ((request client method url json s).1.free ≡ s.free)
      × (s.free ≡ 0 → request client method url json s ≡ (err cap_reached, s))
unfolding request
request-free client method url json s = ground arith
