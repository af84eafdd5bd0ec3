-- ===== src/Extract/Attachments.antt =====
-- The attachments of src/mailflow/extract/mime.py and the rules of extract/policy.py. A part of a message is
-- what the email package tells of it; a scanner and a blob store act on a state of theirs and may raise.
pub mod Modes
use mailflow.Base.{
  ℕ, zero, suc, Bool, true, false, ℤ, pos, Text, text, text_eq, Option, none, some, List, [], ◌∷◌,
  ◌++◌, if◌then◌else◌,
}
use mailflow.Exec.{Exec, Exc, permanent, Result, ok, err, pure, raise, continue, ◌>>=◌, ◌>>◌}
use mailflow.Core.Models.{Attachment, StrippedAttachment, StripReason, ScanVerdict, Bytes}
use mailflow.Extract.Safety.{check_allowlist}
use mailflow.Extract.Streaming.{digest_and_size}

-- `chunks` is what `iter_decoded` yields, and `ending` the exception that ends it.
pub record Part : Type 0 where
  pub is_multipart : Bool
  pub content_type : Text
  pub content_disposition : Option Text
  pub content_id : Option Text
  pub filename : Option Text
  pub content : Result Text
  pub payload : Option Bytes
  pub shown_payload : Text
  pub chunks : List Bytes
  pub ending : Option Exc

pub record AttachmentRule (X : Type 0) : Type 0 where
  pub max_bytes : ℕ
  pub allowlist : List Text
  pub scanner : Option (Attachment → Exec X ScanVerdict)

pub record AttachmentPolicy (X : Type 0) : Type 0 where
  pub real : AttachmentRule X
  pub inline : AttachmentRule X

-- `BlobStore.put_stream`
abbrev pub PutStream : Type 0 → Type 0
PutStream X = Text → List Bytes → Option Exc → Text → Exec X Text

unfoldable pub attachment_blocked : Text → Text → Exc
attachment_blocked filename reason = record {
  kind = permanent;
  class_name = text "AttachmentBlockedError";
  message = text "attachment blocked (" ++ (filename ++ (text "): " ++ reason));
}

abbrev pub lift_result : {X A : Type 0} → Result A → Exec X A
lift_result r x = (r, x)

-- The reason for which `_process_policy` strips a part that cannot be digested; others are raised.
unfoldable pub digest_reason : Exc → Option StripReason
unfolding text_eq
digest_reason e =
    if text_eq e.class_name (text "AttachmentTooLargeError")
    then some StripReason.oversize
    else if text_eq e.class_name (text "AttachmentUnreadableError")
    then some StripReason.unreadable
    else none

abbrev pub with_digest : Attachment → Text × ℕ → Attachment
with_digest meta (content_hash, size_bytes) = record meta {
  content_hash = content_hash;
  size_bytes = pos size_bytes;
}

abbrev pub digest : (Bytes → Text) → ℕ → Part → Result (Text × ℕ)
digest sha256_hex max_bytes part = digest_and_size sha256_hex max_bytes part.chunks part.ending

module _ {X : Type 0} (sha256_hex : Bytes → Text) where
  -- if blob_store is not None and size_bytes
  abbrev pub put_part : Part → Text → Option (PutStream X) → Text × ℕ → Exec X Text
  put_part part ctype none r = pure []
  put_part part ctype (some put_stream) (content_hash, zero) = pure []
  put_part part ctype (some put_stream) (content_hash, suc n) =
      put_stream content_hash part.chunks part.ending ctype

  -- The end of the legacy path: the blob is written and its place noted.
  abbrev pub stored : Part → Text → Option (PutStream X) → Attachment → Text × ℕ → Exec X Attachment
  stored part ctype blob_store meta r = put_part part ctype blob_store r >>= λ storage_ref.
      pure (record (with_digest meta r) { storage_ref = storage_ref })

  module _ (part : Part) (meta : Attachment) (ctype : Text)
      (blob_store : Option (PutStream X)) where
    abbrev pub scanned : Text × ℕ → ScanVerdict → Exec X Attachment
    scanned r ScanVerdict.block =
        raise (attachment_blocked meta.filename (text "blocked by scanner"))
    scanned r ScanVerdict.allow = stored part ctype blob_store meta r

    abbrev pub digest_legacy :
        (Attachment → Exec X ScanVerdict) → ℕ → ScanVerdict → Exec X Attachment
    digest_legacy scan max_bytes ScanVerdict.block =
        raise (attachment_blocked meta.filename (text "type not allowlisted: " ++ ctype))
    digest_legacy scan max_bytes ScanVerdict.allow =
        lift_result (digest sha256_hex max_bytes part) >>= λ r.
        scan (with_digest meta r) >>= scanned r

    -- `_process_legacy`
    unfoldable pub process_legacy :
        (Attachment → Exec X ScanVerdict) → List Text → ℕ → Exec X Attachment
    unfolding check_allowlist digest_and_size
    process_legacy scan allowlist max_bytes =
        digest_legacy scan max_bytes (check_allowlist meta allowlist).verdict

    module _ (is_inline : Bool) where
      abbrev pub Outcome : Type 0
      Outcome = Option Attachment × Option StrippedAttachment

      -- `_strip`
      unfoldable pub strip_part : StripReason → ℕ → Outcome
      strip_part reason size_bytes = (
        none,
        some (record {
          filename = meta.filename;
          content_type = ctype;
          size_bytes = pos size_bytes;
          is_inline = is_inline;
          reason = reason;
        }),
      )

      -- if blob_store is not None and size_bytes
      abbrev pub put_kept : Option (PutStream X) → Text × ℕ → Exec X Text
      put_kept none r = pure []
      put_kept (some put) (content_hash, zero) = pure []
      put_kept (some put) (content_hash, suc n) = put content_hash part.chunks part.ending ctype

      -- All checks passed: the blob is written and its place noted.
      abbrev pub keep_stored : Text × ℕ → Exec X Outcome
      keep_stored (content_hash, size_bytes) =
          put_kept blob_store (content_hash, size_bytes) >>= λ storage_ref. pure (
            some (record meta {
              content_hash = content_hash;
              size_bytes = pos size_bytes;
              storage_ref = storage_ref;
            }),
            none,
          )

      abbrev pub scanned_policy : Text × ℕ → ScanVerdict → Exec X Outcome
      scanned_policy (h, size) ScanVerdict.block = pure (strip_part StripReason.scanner size)
      scanned_policy r ScanVerdict.allow = keep_stored r

      abbrev pub scan_policy : Option (Attachment → Exec X ScanVerdict) → Text × ℕ → Exec X Outcome
      scan_policy none r = keep_stored r
      scan_policy (some scan) r = scan (with_digest meta r) >>= scanned_policy r

      abbrev pub strip_or_raise : Exc → Option StripReason → Exec X Outcome
      strip_or_raise e none = raise e
      strip_or_raise e (some reason) = pure (strip_part reason 0)

      abbrev pub on_digest :
          Option (Attachment → Exec X ScanVerdict) → Result (Text × ℕ) → Exec X Outcome
      on_digest scanner (ok r) = scan_policy scanner r
      on_digest scanner (err e) = strip_or_raise e (digest_reason e)

      abbrev pub digest_policy : AttachmentRule X → ScanVerdict → Exec X Outcome
      digest_policy rule ScanVerdict.block = pure (strip_part StripReason.not_allowlisted 0)
      digest_policy rule ScanVerdict.allow =
          on_digest rule.scanner (digest sha256_hex rule.max_bytes part)

      abbrev pub rule_of : AttachmentPolicy X → AttachmentRule X
      rule_of policy = if is_inline then policy.inline else policy.real

      -- `_process_policy`
      unfoldable pub process_policy : AttachmentPolicy X → Exec X Outcome
      unfolding check_allowlist digest_and_size strip_part digest_reason
      process_policy policy =
          digest_policy (rule_of policy) (check_allowlist meta (rule_of policy).allowlist).verdict
