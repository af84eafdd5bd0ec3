-- ===== src/Stores/Bookmark.antt =====
-- The key of a bookmark in the cursor stores of src/mailflow/stores, (tenant, stream.key).
use mailflow.Base.{Text, text_eq, Eq, text_eq_iff, Bool, ◌&&◌, ◌↔◌, ◌≡◌, true, arith}
use mailflow.Core.Models.{StreamRef, stream_key}

abbrev pub Bookmark : Type 0
Bookmark = Text × Text

abbrev pub bookmark_eq : Bookmark → Bookmark → Bool
bookmark_eq (t, r) (t', r') = text_eq t t' && text_eq r r'

pub bookmark_eq_iff : (a b : Bookmark) → (bookmark_eq a b ≡ true) ↔ (a ≡ b)
bookmark_eq_iff (t, r) (t', r') = ground (arith, text_eq_iff t t', text_eq_iff r r')

instance abbrev pub bookmark_Eq : Eq Bookmark
bookmark_Eq = record { beq = bookmark_eq; beq_iff = bookmark_eq_iff }

abbrev pub bookmark : Text → StreamRef → Bookmark
bookmark tenant stream = (tenant, stream_key stream)
