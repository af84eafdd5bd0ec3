-- ===== src/Gmail/Notifications/Encoded.antt =====
-- Push payloads in base64, for src/mailflow/adapters/gmail/notifications.py.
use mailflow.Base.{
  ℕ, ◌+◌, ◌*◌, ◌/◌, ◌%◌, ◌<◌, Bool, true, ℤ, Text, Option, none, some, [], ◌∷◌, List, length, ◌≡◌,
  refl, ap, arith,
}
use mailflow.Exec.{Exc, ok}
use mailflow.Dict.{Dict}
use mailflow.Base64.{digit, b64encode}
use mailflow.Base64.Laws.{AreBytes, digit_value-digit, b64decode-b64encode}
use mailflow.Json.{Json}
use mailflow.Core.Models.{Bytes}
use mailflow.Gmail.Notifications.{
  is_digits, b64decode_strict, try_parse, parse_raw, parse_pubsub_message,
}

digits_more : (n : ℕ) (s : Text) → n < 64 → is_digits s ≡ true → is_digits (digit n ∷ s) ≡ true
unfolding is_digits
digits_more n s h k = rw (digit_value-digit n h) k

no_pads : is_digits [] ≡ true
unfolding is_digits
no_pads = refl

one_pad : is_digits (b'=' ∷ []) ≡ true
unfolding is_digits
one_pad = refl

two_pads : is_digits (b'=' ∷ b'=' ∷ []) ≡ true
unfolding is_digits
two_pads = refl

is_digits-b64encode : (bs : List ℕ) → AreBytes bs → is_digits (b64encode bs) ≡ true
unfolding b64encode
is_digits-b64encode [] h = no_pads
is_digits-b64encode (a ∷ []) h =
    digits_more (a / 4) _ (omega arith)
      (digits_more (a % 4 * 16) (b'=' ∷ b'=' ∷ []) (omega arith) two_pads)
is_digits-b64encode (a ∷ b ∷ []) h = digits_more (a / 4) _ (omega arith) (
    digits_more (a % 4 * 16 + b / 16) _ (omega arith)
      (digits_more (b % 16 * 4) (b'=' ∷ []) (omega arith) one_pad))
is_digits-b64encode (a ∷ b ∷ c ∷ rest) h = digits_more (a / 4) _ (omega arith) (
    digits_more (a % 4 * 16 + b / 16) _ (omega arith) (
      digits_more (b % 16 * 4 + c / 64) _ (omega arith)
        (digits_more (c % 64) (b64encode rest) (omega arith) (is_digits-b64encode rest h.1.1.1))))

length-b64encode : (bs : List ℕ) → length (b64encode bs) % 4 ≡ 0
unfolding b64encode
length-b64encode [] = refl
length-b64encode (a ∷ []) = refl
length-b64encode (a ∷ b ∷ []) = refl
length-b64encode (a ∷ b ∷ c ∷ rest) = omega (arith, length-b64encode rest)

b64decode_strict-b64encode : (bs : List ℕ) → AreBytes bs → b64decode_strict (b64encode bs) ≡ some bs
unfolding b64decode_strict
b64decode_strict-b64encode bs h =
    rw (is_digits-b64encode bs h, length-b64encode bs) (b64decode-b64encode bs h)

module _ (repr : Json → Text) (loads : Bytes → Option Json) (int_of : Json → Option ℤ)
    (is_mailflow_error : Exc → Bool) where
  parse_raw-plain :
      (raw : Bytes) (p : Text × ℤ)
      → try_parse repr loads int_of is_mailflow_error raw ≡ some p
      → parse_raw repr loads int_of is_mailflow_error raw ≡ some p
  parse_raw-plain raw p h = rw h

  parse_raw-b64encode :
      (raw : Bytes) (p : Text × ℤ)
      → AreBytes raw
      → try_parse repr loads int_of is_mailflow_error raw ≡ some p
      → try_parse repr loads int_of is_mailflow_error (b64encode raw) ≡ none
      → parse_raw repr loads int_of is_mailflow_error (b64encode raw) ≡ some p
  parse_raw-b64encode raw p h plain encoded = rw (encoded, b64decode_strict-b64encode raw h, plain)

  -- A payload that says a mailbox and a history id says the same in base64, where the base64 text is not
  -- itself such a payload.
  pub parse_pubsub_message-b64encode :
      (A : Type 0) (headers : Dict Text Text) (raw : Bytes) (p : Text × ℤ)
      → AreBytes raw
      → try_parse repr loads int_of is_mailflow_error raw ≡ some p
      → try_parse repr loads int_of is_mailflow_error (b64encode raw) ≡ none
      → (parse_pubsub_message repr loads int_of is_mailflow_error {A = A} none headers raw
          ≡ ok (some p))
        × (parse_pubsub_message repr loads int_of is_mailflow_error {A = A} none headers
              (b64encode raw)
            ≡ ok (some p))
  unfolding parse_pubsub_message
  parse_pubsub_message-b64encode A headers raw p h plain encoded =
      (ap ok (parse_raw-plain raw p plain), ap ok (parse_raw-b64encode raw p h plain encoded))
