-- ===== src/Base64.antt =====
-- Python's `base64.b64encode` and `b64decode`, which src/mailflow calls to keep raw messages in dead
-- letters (core/pipeline.py, core/redrive.py).
pub mod Laws
use mailflow.Base.{
  ℕ, ◌+◌, ◌-◌, ◌*◌, ◌/◌, ◌%◌, Text, List, [], ◌∷◌, Option, none, some, ltb, leb, ◌==◌, ◌&&◌,
  if◌then◌else◌,
}
use mailflow.Dict.{on_some}

-- The alphabet.
unfoldable pub digit : ℕ → ℕ
digit n =
    if ltb n 26
    then b'A' + n
    else if ltb n 52
    then b'a' + (n - 26)
    else if ltb n 62
    then b'0' + (n - 52)
    else if n == 62
    then b'+'
    else b'/'

-- The value of a character, none if it is not in the alphabet.
unfoldable pub digit_value : ℕ → Option ℕ
digit_value c =
    if leb b'A' c && leb c b'Z'
    then some (c - b'A')
    else if leb b'a' c && leb c b'z'
    then some (c - b'a' + 26)
    else if leb b'0' c && leb c b'9'
    then some (c - b'0' + 52)
    else if c == b'+'
    then some 62
    else if c == b'/'
    then some 63
    else none

unfoldable pub b64encode : List ℕ → Text
unfolding digit
b64encode [] = []
b64encode (a ∷ []) = digit (a / 4) ∷ digit (a % 4 * 16) ∷ b'=' ∷ b'=' ∷ []
b64encode (a ∷ b ∷ []) =
    digit (a / 4) ∷ digit (a % 4 * 16 + b / 16) ∷ digit (b % 16 * 4) ∷ b'=' ∷ []
b64encode (a ∷ b ∷ c ∷ rest) =
    digit (a / 4)
    ∷ digit (a % 4 * 16 + b / 16)
    ∷ digit (b % 16 * 4 + c / 64)
    ∷ digit (c % 64)
    ∷ b64encode rest

-- Where the decoder stands in a group of four: what is left of the digits read, and the padding.
pub data Quad : Type 0 where
  at0 : Quad
  at1 : ℕ → Quad
  at2 at3 : ℕ → ℕ → Quad

-- `binascii.a2b_base64`: a character outside the alphabet is skipped, enough padding ends the
-- data, and data that ends inside a group raises.
unfoldable pub b64decode_from : Quad → Text → Option (List ℕ)
b64decode_from at0 [] = some []
b64decode_from (at1 left) [] = none
b64decode_from (at2 left pads) [] = none
b64decode_from (at3 left pads) [] = none
b64decode_from at0 (c ∷ s) = elim (digit_value c) [
  | none ↦ b64decode_from at0 s
  | some v ↦ b64decode_from (at1 v) s
]
b64decode_from (at1 left) (c ∷ s) = elim (digit_value c) [
  | none ↦ b64decode_from (at1 left) s
  | some v ↦ on_some (◌∷◌ (left * 4 + v / 16)) (b64decode_from (at2 (v % 16) 0) s)
]
b64decode_from (at2 left pads) (c ∷ s) =
    if c == b'='
    then (if ltb pads 1 then b64decode_from (at2 left (pads + 1)) s else some [])
    else elim (digit_value c) [
      | none ↦ b64decode_from (at2 left pads) s
      | some v ↦ on_some (◌∷◌ (left * 16 + v / 4)) (b64decode_from (at3 (v % 4) 0) s)
    ]
b64decode_from (at3 left pads) (c ∷ s) = if c == b'=' then some [] else elim (digit_value c) [
  | none ↦ b64decode_from (at3 left pads) s
  | some v ↦ on_some (◌∷◌ (left * 64 + v)) (b64decode_from at0 s)
]

-- None stands for `binascii.Error`.
unfoldable pub b64decode : Text → Option (List ℕ)
unfolding b64decode_from digit_value
b64decode s = b64decode_from at0 s
