-- ===== src/Core/Identity.antt =====
-- src/mailflow/core/identity.py. `hashlib.sha256(..).hexdigest()` is the parameter `sha256_hex`.

pub mod Keys
pub mod Trust
use mailflow.Base.{
  Text, text, Bool, true, false, ◌&&◌, not, Option, none, some, List, [], ◌∷◌, ◌++◌, is_empty,
  strip, starts_with, has_char, reverse, if◌then◌else◌,
}

-- "|".join((a, b, c))
abbrev join3 : Text → Text → Text → Text
join3 a b c = a ++ (b'|' ∷ (b ++ (b'|' ∷ c)))

unfoldable pub idempotency_key : Text → Text → Text → Text
idempotency_key tenant mailbox provider_message_id = join3 tenant mailbox provider_message_id

-- s.endswith(">")
abbrev pub ends_with_char : Text → Text → Bool
ends_with_char p s = starts_with p (reverse s)

unfoldable pub is_message_id_trusted : Option Text → Bool
is_message_id_trusted none = false
is_message_id_trusted (some m) =
    let mid = strip m in
    not (is_empty m)
    && (starts_with (text "<") mid && (ends_with_char (text ">") mid && has_char b'@' mid))

abbrev present : Option Text → Bool
present none = false
present (some m) = not (is_empty m) && not (is_empty (strip m))

abbrev stripped : Option Text → Text
stripped none = []
stripped (some m) = strip m

module _ (sha256_hex : Text → Text) where
  unfoldable pub stable_hash : Text → Text → Text → Text
  stable_hash provider provider_message_id mailbox =
      sha256_hex (join3 provider provider_message_id mailbox)

  -- (canonical_id, message_id_present, message_id_trusted)
  unfoldable pub derive_canonical_id : Text → Text → Text → Option Text → Text × Bool × Bool
  unfolding is_message_id_trusted
  derive_canonical_id provider provider_message_id mailbox message_id =
      let trusted = is_message_id_trusted message_id in
      if trusted
      then (stripped message_id, present message_id, trusted)
      else (stable_hash provider provider_message_id mailbox, present message_id, trusted)
