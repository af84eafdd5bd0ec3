-- ===== src/Tests/Inputs.antt =====
-- Attachments, the `state=` text and the store of emails.
use mailflow.Base.{
  Text, some, text, text_eq, pos, false, none, List, [], ◌∷◌, ◌≡◌, refl, starts_with, has_char,
  lower, after_last,
}
use mailflow.Exec.{ok}
use mailflow.Core.Models.{Attachment, ScanVerdict, Bytes}
use mailflow.Filters.{mem_text}
use mailflow.Extract.Safety.{check_allowlist, extension}
use mailflow.Extract.Streaming.{Digested, digest_and_size, digest_and_size-Digested}
use mailflow.Stores.MemoryBlobs.{join}
use mailflow.Config.State.{resolve_state, resolve_sqlite, has_win_drive, is_root_level, sqlite_at}
use mailflow.Persistence.Emails.{Email, StoredEmail}

abbrev chunks : List Bytes
chunks = (b'a' ∷ b'b' ∷ []) ∷ (b'c' ∷ []) ∷ []

digest_and_size-Digested_example :
    Digested (λ b. b) 2 (join chunks) (digest_and_size (λ b. b) 2 chunks none)
digest_and_size-Digested_example = digest_and_size-Digested (λ b. b) 2 chunks

-- The attachments lie beside the file.
beside : resolve_state (text "sqlite:///tmp/mf.db") ≡ ok (sqlite_at (text "/tmp/mf.db"))
unfolding resolve_state resolve_sqlite has_win_drive is_root_level text_eq starts_with has_char
beside = refl

-- A lone "/" is accepted, and becomes the empty path.
lone_slash : resolve_state (text "sqlite:///") ≡ ok (sqlite_at [])
unfolding resolve_state resolve_sqlite has_win_drive is_root_level text_eq starts_with has_char
lone_slash = refl

abbrev attachment : Attachment
attachment = record {
  filename = text "run.EXE";
  content_type = text "application/x-dosexec";
  size_bytes = pos 9;
  content_hash = [];
  content_id = [];
  is_inline = false;
  provider_attachment_id = [];
  storage_ref = [];
}

blocked : (check_allowlist attachment (text "pdf" ∷ [])).verdict ≡ ScanVerdict.block
unfolding check_allowlist extension mem_text text_eq lower has_char after_last
blocked = refl

abbrev reply : Email Text
reply = record {
  canonical_id = some (text "b");
  references = text "a" ∷ [];
  columns = text "Re: hi";
}

abbrev stored : StoredEmail Text
stored = record {
  canonical_id = some (text "b");
  thread_key = text "a";
  is_read = false;
  columns = text "Re: hi";
}
