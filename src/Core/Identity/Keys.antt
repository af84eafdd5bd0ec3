-- ===== src/Core/Identity/Keys.antt =====
-- When the dedupe keys of src/mailflow/core/identity.py are told apart.
use mailflow.Base.{ℕ, Text, false, [], ◌∷◌, ◌++◌, ◌≡◌, arith, has_char, ap}
use mailflow.Core.Identity.{idempotency_key}
use mathlib.Core.List.{append_assoc}

-- Up to a separator that neither prefix holds, two texts agree part by part.
split_unique :
    (c : ℕ) (s s' r r' : Text)
    → has_char c s ≡ false
    → has_char c s' ≡ false
    → s ++ (c ∷ r) ≡ s' ++ (c ∷ r')
    → (s ≡ s') × (r ≡ r')
unfolding has_char
split_unique c [] [] r r' h h' e = ground arith
split_unique c [] (d ∷ s') r r' h h' e = ground arith
split_unique c (d ∷ s) [] r r' h h' e = ground arith
split_unique c (d ∷ s) (d' ∷ s') r r' h h' e = ground (arith, split_unique c s s' r r')

-- Tenants and mailboxes without a "|" are told apart, and so are the provider's ids: two messages
-- with one key are one arrival.
pub idempotency_key_injective :
    (t t' m m' p p' : Text)
    → has_char b'|' t ≡ false
    → has_char b'|' t' ≡ false
    → has_char b'|' m ≡ false
    → has_char b'|' m' ≡ false
    → idempotency_key t m p ≡ idempotency_key t' m' p'
    → (t ≡ t') × (m ≡ m') × (p ≡ p')
unfolding idempotency_key
idempotency_key_injective t t' m m' p p' ht ht' hm hm' e =
    let tenants = split_unique b'|' t t' _ _ ht ht' e in
    let boxes = split_unique b'|' m m' _ _ hm hm' tenants.1 in (tenants.0, boxes.0, boxes.1)

-- A "|" in the mailbox is not told apart from the separator: whatever the tenant, the message with
-- the id p of the mailbox "m|x" has the key of the message "x|p" of the mailbox m.
pub idempotency_key_collides :
    (t m x p : Text) → idempotency_key t (m ++ (b'|' ∷ x)) p ≡ idempotency_key t m (x ++ (b'|' ∷ p))
unfolding idempotency_key
idempotency_key_collides t m x p =
    ap (λ (r : Text). t ++ (b'|' ∷ r)) (append_assoc m (b'|' ∷ x) (b'|' ∷ p))
