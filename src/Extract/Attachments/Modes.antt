-- ===== src/Extract/Attachments/Modes.antt =====
-- The two ways in which src/mailflow/extract/mime.py treats an attachment.
use mailflow.Base.{
  zero, suc, ℕ, Bool, Text, Option, none, some, ◌≡◌, refl, ◌⊎◌, inl, inr, if◌then◌else◌,
}
use mailflow.Exec.{Exec, Exc, Result, ok, err, continue}
use mailflow.Core.Models.{Attachment, StrippedAttachment, StripReason, ScanVerdict, Bytes}
use mailflow.Extract.Safety.{check_allowlist}
use mailflow.Extract.Attachments.{
  keep_stored, Part, PutStream, AttachmentRule, AttachmentPolicy, process_legacy, process_policy,
  digest, with_digest, strip_part, digest_reason, stored, scanned, scanned_policy, digest_legacy,
  digest_policy, on_digest, strip_or_raise, lift_result,
}

module _ {X : Type 0} where
  -- How the policy's way goes where the other ended like this: it keeps what that keeps, and strips the part or
  -- raises the same where that raises; what was done outside is the same.
  abbrev pub Alike :
      Result Attachment × X → Result (Option Attachment × Option StrippedAttachment) × X → Type 0
  Alike (ok a, y) q = q ≡ (ok (some a, none), y)
  Alike (err e, y) q = (q ≡ (err e, y)) ⊎ ((s : StrippedAttachment) × (q ≡ (ok (none, some s), y)))

  module _ (sha256_hex : Bytes → Text) (part : Part) (meta : Attachment) (ctype : Text)
      (blob_store : Option (PutStream X)) (is_inline : Bool) where
    put-Alike :
        (a : Attachment) (p : Result Text × X)
        → Alike
            (continue p (λ ref y. (ok (record a { storage_ref = ref }), y)))
            (continue p (λ ref y. (ok (some (record a { storage_ref = ref }), none), y)))
    put-Alike a (ok ref, y) = refl
    put-Alike a (err e, y) = inl refl

    kept-Alike :
        (blob_store : Option (PutStream X)) (r : Text × ℕ) (y : X)
        → Alike
            (stored sha256_hex part ctype blob_store meta r y)
            (keep_stored sha256_hex part meta ctype blob_store is_inline r y)
    kept-Alike none r y = refl
    kept-Alike (some put) (hash, zero) y = refl
    kept-Alike (some put) (hash, suc n) y =
        put-Alike (with_digest meta (hash, suc n)) (put hash part.chunks part.ending ctype y)

    scanned-Alike :
        (r : Text × ℕ) (v : ScanVerdict) (y : X)
        → Alike
            (scanned sha256_hex part meta ctype blob_store r v y)
            (scanned_policy sha256_hex part meta ctype blob_store is_inline r v y)
    unfolding strip_part
    scanned-Alike (h, size) ScanVerdict.block y = inr (_, refl)
    scanned-Alike r ScanVerdict.allow y = kept-Alike blob_store r y

    module _ (scan : Attachment → Exec X ScanVerdict) where
      after_scan-Alike :
          (r : Text × ℕ) (p : Result ScanVerdict × X)
          → Alike
              (continue p (scanned sha256_hex part meta ctype blob_store r))
              (continue p (scanned_policy sha256_hex part meta ctype blob_store is_inline r))
      after_scan-Alike r (ok v, y) = scanned-Alike r v y
      after_scan-Alike r (err e, y) = inl refl

      strip-Alike :
          (e : Exc) (o : Option StripReason) (x : X)
          → Alike (err e, x) (strip_or_raise sha256_hex part meta ctype blob_store is_inline e o x)
      unfolding strip_part
      strip-Alike e none x = inl refl
      strip-Alike e (some reason) x = inr (_, refl)

      digested-Alike :
          (d : Result (Text × ℕ)) (x : X)
          → Alike
              (continue (lift_result d x) (λ r. λ y.
                continue
                  (scan (with_digest meta r) y)
                  (scanned sha256_hex part meta ctype blob_store r)))
              (on_digest sha256_hex part meta ctype blob_store is_inline (some scan) d x)
      unfolding digest_reason
      digested-Alike (ok r) x = after_scan-Alike r (scan (with_digest meta r) x)
      digested-Alike (err e) x = strip-Alike e (digest_reason e) x

      verdict-Alike :
          (rule : AttachmentRule X) (v : ScanVerdict) (x : X)
          → rule.scanner ≡ some scan
          → Alike
              (digest_legacy sha256_hex part meta ctype blob_store scan rule.max_bytes v x)
              (digest_policy sha256_hex part meta ctype blob_store is_inline rule v x)
      unfolding strip_part digest_reason
      verdict-Alike rule ScanVerdict.block x e = inr (_, refl)
      verdict-Alike rule ScanVerdict.allow x e =
          rw (e) (digested-Alike (digest sha256_hex rule.max_bytes part) x)

      -- With the same scanner, allowlist and cap, the policy keeps what the legacy path keeps, and strips the part or
      -- raises the same exception where that raises; the scanner and the blob store are left in the
      -- same state.
      pub process_policy-process_legacy :
          (policy : AttachmentPolicy X) (rule : AttachmentRule X) (x : X)
          → rule ≡ (if is_inline then policy.inline else policy.real)
          → rule.scanner ≡ some scan
          → Alike
              (process_legacy sha256_hex part meta ctype blob_store scan rule.allowlist
                rule.max_bytes x)
              (process_policy sha256_hex part meta ctype blob_store is_inline policy x)
      unfolding process_legacy process_policy
      process_policy-process_legacy policy rule x same e =
          rw (← same) (verdict-Alike rule (check_allowlist meta rule.allowlist).verdict x e)
