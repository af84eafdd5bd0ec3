-- ===== src/Base64/Laws.antt =====
-- Encoding and decoding in base64, one after the other.
use mailflow.Base.{
  ℕ, ◌<◌, ◌*◌, ◌/◌, ◌%◌, ◌+◌, ◌≡◌, refl, List, [], ◌∷◌, some, arith, Text, ◌≢◌, ap, ◌∙◌, Option,
  none,
}
use mailflow.Dict.{on_some}
use mailflow.Base64.{digit, digit_value, b64encode, b64decode, b64decode_from, at0, at1, at2, at3}

-- Every number is a byte.
abbrev pub AreBytes : List ℕ → Type 0
AreBytes [] = Unit
AreBytes (b ∷ bs) = (b < 256) × AreBytes bs

pub digit_value-digit : (n : ℕ) → n < 64 → digit_value (digit n) ≡ some n
unfolding digit digit_value
digit_value-digit n h = ground arith

digit-ne-pad : (n : ℕ) → n < 64 → digit n ≢ b'='
unfolding digit
digit-ne-pad n h = ground arith

module _ (v : ℕ) (s : Text) (small : v < 64) where
  decode0 : b64decode_from at0 (digit v ∷ s) ≡ b64decode_from (at1 v) s
  unfolding b64decode_from
  decode0 = ground (arith, digit_value-digit v small)

  decode1 :
      (left : ℕ)
      → b64decode_from (at1 left) (digit v ∷ s)
        ≡ on_some (◌∷◌ (left * 4 + v / 16)) (b64decode_from (at2 (v % 16) 0) s)
  unfolding b64decode_from
  decode1 left = ground (arith, digit_value-digit v small)

  decode2 :
      (left pads : ℕ)
      → b64decode_from (at2 left pads) (digit v ∷ s)
        ≡ on_some (◌∷◌ (left * 16 + v / 4)) (b64decode_from (at3 (v % 4) 0) s)
  unfolding b64decode_from
  decode2 left pads = ground (arith, digit_value-digit v small, digit-ne-pad v small)

  decode3 :
      (left pads : ℕ)
      → b64decode_from (at3 left pads) (digit v ∷ s)
        ≡ on_some (◌∷◌ (left * 64 + v)) (b64decode_from at0 s)
  unfolding b64decode_from
  decode3 left pads = ground (arith, digit_value-digit v small, digit-ne-pad v small)

pad2 : (left : ℕ) → b64decode_from (at2 left 0) (b'=' ∷ b'=' ∷ []) ≡ some []
unfolding b64decode_from
pad2 left = refl

pad3 : (left : ℕ) → b64decode_from (at3 left 0) (b'=' ∷ []) ≡ some []
unfolding b64decode_from
pad3 left = refl

-- One byte at the end, two bytes at the end, and a whole group.
tail1 : (a : ℕ) → a < 256 → b64decode_from at0 (b64encode (a ∷ [])) ≡ some (a ∷ [])
unfolding b64encode
tail1 a ha =
    decode0 (a / 4) _ (omega arith)
    ∙ decode1 (a % 4 * 16) _ (omega arith) (a / 4)
    ∙ ground (arith, pad2 (a % 4 * 16 % 16))

tail2 :
    (a b : ℕ) → a < 256 → b < 256 → b64decode_from at0 (b64encode (a ∷ b ∷ [])) ≡ some (a ∷ b ∷ [])
unfolding b64encode
tail2 a b ha hb =
    let m = a % 4 * 16 + b / 16 in
    decode0 (a / 4) _ (omega arith)
    ∙ decode1 m _ (omega arith) (a / 4)
    ∙ ap (on_some (◌∷◌ (a / 4 * 4 + m / 16))) (decode2 (b % 16 * 4) _ (omega arith) (m % 16) 0)
    ∙ ground (arith, pad3 (b % 16 * 4 % 4))

on_some-on_some :
    (f g : List ℕ → List ℕ) (o : Option (List ℕ))
    → on_some f (on_some g o) ≡ on_some (λ x. f (g x)) o
on_some-on_some f g none = refl
on_some-on_some f g (some x) = refl

group :
    (a b c : ℕ) (s : Text)
    → a < 256
    → b < 256
    → c < 256
    → b64decode_from at0 (
        digit (a / 4)
        ∷ digit (a % 4 * 16 + b / 16)
        ∷ digit (b % 16 * 4 + c / 64)
        ∷ digit (c % 64)
        ∷ s)
      ≡ on_some (λ r. a ∷ b ∷ c ∷ r) (b64decode_from at0 s)
group a b c s ha hb hc =
    let m = a % 4 * 16 + b / 16 in
    let n = b % 16 * 4 + c / 64 in
    decode0 (a / 4) _ (omega arith)
    ∙ decode1 m _ (omega arith) (a / 4)
    ∙ ap (on_some (◌∷◌ (a / 4 * 4 + m / 16))) (
        decode2 n _ (omega arith) (m % 16) 0
        ∙ ap (on_some (◌∷◌ (m % 16 * 16 + n / 4))) (decode3 (c % 64) s (omega arith) (n % 4) 0))
    ∙ whole (b64decode_from at0 s)
  where
    whole :
        (o : Option (List ℕ))
        → on_some (◌∷◌ (a / 4 * 4 + (a % 4 * 16 + b / 16) / 16)) (
            on_some
              (◌∷◌ ((a % 4 * 16 + b / 16) % 16 * 16 + (b % 16 * 4 + c / 64) / 4))
              (on_some (◌∷◌ ((b % 16 * 4 + c / 64) % 4 * 64 + c % 64)) o))
          ≡ on_some (λ r. a ∷ b ∷ c ∷ r) o
    whole none = refl
    whole (some r) = ground arith

decode_all : (bs : List ℕ) → AreBytes bs → b64decode_from at0 (b64encode bs) ≡ some bs
unfolding b64encode b64decode_from
decode_all [] h = refl
decode_all (a ∷ []) h = tail1 a h.0
decode_all (a ∷ b ∷ []) h = tail2 a b h.0 h.1.0
decode_all (a ∷ b ∷ c ∷ rest) h =
    group a b c (b64encode rest) h.0 h.1.0 h.1.1.0
    ∙ ap (on_some (λ r. a ∷ b ∷ c ∷ r)) (decode_all rest h.1.1.1)

-- Whatever the bytes, decoding their base64 text gives them back.
pub b64decode-b64encode : (bs : List ℕ) → AreBytes bs → b64decode (b64encode bs) ≡ some bs
unfolding b64decode
b64decode-b64encode bs h = decode_all bs h
