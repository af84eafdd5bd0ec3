-- ===== src/Core/Identity/Trust.antt =====
-- When src/mailflow/core/identity.py takes the Message-ID for the canonical id of a message.
use mailflow.Base.{
  Text, text, true, false, Option, some, ◌≡◌, refl, arith, strip, starts_with, has_char, is_empty,
  [], ◌∷◌,
}
use mailflow.Core.Identity.{is_message_id_trusted, ends_with_char, derive_canonical_id}

starts_with-nonempty : (s : Text) → starts_with (text "<") s ≡ true → is_empty s ≡ false
unfolding starts_with
starts_with-nonempty [] h = cc
starts_with-nonempty (c ∷ s) h = refl

-- A trusted Message-ID, without the white space around it, is the canonical id; the message counts as
-- having one, and the id starts with "<", ends with ">" and holds an "@".
pub derive_canonical_id-trusted :
    (sha256_hex : Text → Text) (provider provider_message_id mailbox m : Text)
    → is_message_id_trusted (some m) ≡ true
    → let (id, present, trusted) =
        derive_canonical_id sha256_hex provider provider_message_id mailbox (some m) in
      (id ≡ strip m)
      × (present ≡ true)
      × (trusted ≡ true)
      × (starts_with (text "<") id ≡ true)
      × (ends_with_char (text ">") id ≡ true)
      × (has_char b'@' id ≡ true)
unfolding derive_canonical_id
derive_canonical_id-trusted sha256_hex provider provider_message_id mailbox m h =
    let full = starts_with-nonempty (strip m) in
    (ground arith, ground (arith, full), ground arith, ground arith, ground arith, ground arith)

-- Without a trusted Message-ID the canonical id is told by the provider, its id and the mailbox alone:
-- two headers that are not trusted, or missing, give one id.
pub derive_canonical_id_untrusted :
    (sha256_hex : Text → Text) (provider provider_message_id mailbox : Text) (m m' : Option Text)
    → is_message_id_trusted m ≡ false
    → is_message_id_trusted m' ≡ false
    → (derive_canonical_id sha256_hex provider provider_message_id mailbox m).0
      ≡ (derive_canonical_id sha256_hex provider provider_message_id mailbox m').0
unfolding derive_canonical_id
derive_canonical_id_untrusted sha256_hex provider provider_message_id mailbox m m' h h' =
    ground arith
