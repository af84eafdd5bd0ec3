-- ===== src/Core/Streams.antt =====
-- `StreamRef` of src/mailflow/core/models.py as a key of dicts.
use mailflow.Base.{
  Text, text_eq, text_eq_iff, Eq, Bool, true, false, ◌&&◌, Option, none, some, ◌≡◌, ◌↔◌, arith,
}
use mailflow.Core.Models.{StreamRef}

abbrev folder_eq : Option Text → Option Text → Bool
folder_eq none none = true
folder_eq (some a) (some b) = text_eq a b
folder_eq none (some b) = false
folder_eq (some a) none = false

-- The equality of the dataclass.
abbrev pub stream_eq : StreamRef → StreamRef → Bool
stream_eq a b = text_eq a.mailbox b.mailbox && folder_eq a.folder b.folder

folder_eq_iff : (a b : Option Text) → (folder_eq a b ≡ true) ↔ (a ≡ b)
folder_eq_iff none none = ground arith
folder_eq_iff none (some b) = ground arith
folder_eq_iff (some a) none = ground arith
folder_eq_iff (some a) (some b) = ground (arith, text_eq_iff a b)

pub stream_eq_iff : (a b : StreamRef) → (stream_eq a b ≡ true) ↔ (a ≡ b)
stream_eq_iff a b = ground (arith, text_eq_iff a.mailbox b.mailbox, folder_eq_iff a.folder b.folder)

instance abbrev pub stream_Eq : Eq StreamRef
stream_Eq = record { beq = stream_eq; beq_iff = stream_eq_iff }
