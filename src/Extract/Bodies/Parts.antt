-- ===== src/Extract/Bodies/Parts.antt =====
-- Under a policy (src/mailflow/extract/mime.py) no part is lost and none stops the message.
use mailflow.Base.{
  ℕ, zero, suc, ◌+◌, Bool, Text, text_eq, leb, Option, none, some, List, [], ◌∷◌, ◌++◌, length, ◌≡◌,
  refl, inl, inr, Bool-cases, if◌then◌else◌,
}
use mailflow.Exec.{Exec, Exc, Result, ok, err, continue}
use mailflow.Core.Models.{Attachment, StrippedAttachment, StripReason, ScanVerdict, Bytes}
use mailflow.Extract.Safety.{check_allowlist}
use mailflow.Extract.Streaming.{digest_from, digest_and_size, summarized, too_large}
use mailflow.Extract.Attachments.{
  Part, AttachmentRule, AttachmentPolicy, PutStream, process_policy, digest, digest_reason,
  strip_part, scanned_policy, scan_policy, on_digest, strip_or_raise, digest_policy, with_digest,
  keep_stored,
}

-- An action that returns something that is so.
abbrev pub Yields : {X A : Type 0} → (A → Type 0) → Result A × X → Type 0
Yields P (ok a, y) = P a
Yields P (err e, y) = ⊥

-- Either an attachment or a stripped one.
abbrev pub One : Option Attachment × Option StrippedAttachment → Type 0
One (some a, none) = Unit
One (none, some s) = Unit
One (none, none) = ⊥
One (some a, some s) = ⊥

-- An exception for which a part is stripped.
abbrev pub Stripping : Exc → Type 0
Stripping e = (reason : StripReason) × (digest_reason e ≡ some reason)

too_large-Stripping : (cap seen : ℕ) → Stripping (too_large cap seen)
unfolding digest_reason too_large text_eq
too_large-Stripping cap seen = (StripReason.oversize, refl)

abbrev pub Readable : Option Exc → Type 0
Readable none = Unit
Readable (some e) = Stripping e

-- What a digest raises, a policy strips.
abbrev Digest : {A : Type 0} → Result A → Type 0
Digest (ok a) = Unit
Digest (err e) = Stripping e

digest_from-Digest :
    (cap : ℕ) (chunks : List Bytes) (ending : Option Exc) (fed : Bytes) (total : ℕ)
    → Readable ending
    → Digest (digest_from cap chunks ending fed total)
unfolding digest_from
digest_from-Digest cap [] none fed total h = tt
digest_from-Digest cap [] (some e) fed total h = h
digest_from-Digest cap (chunk ∷ chunks) ending fed total h =
    elim (Bool-cases (leb (total + length chunk) cap)) [
      | inl q ↦
          rw (q) (digest_from-Digest cap chunks ending (fed ++ chunk) (total + length chunk) h)
      | inr q ↦ rw (q) (too_large-Stripping cap (total + length chunk))
    ]

module _ {X : Type 0} where
  -- A scanner and a blob store that return.
  abbrev pub ScannerReturns : Option (Attachment → Exec X ScanVerdict) → Type 0
  ScannerReturns none = Unit
  ScannerReturns (some scan) = (a : Attachment) (x : X) → Yields (λ v. Unit) (scan a x)

  abbrev pub StoreReturns : Option (PutStream X) → Type 0
  StoreReturns none = Unit
  StoreReturns (some put_stream) =
      (ref : Text) (chunks : List Bytes) (ending : Option Exc) (ctype : Text) (x : X)
      → Yields (λ t. Unit) (put_stream ref chunks ending ctype x)

module _ (sha256_hex : Bytes → Text) where
  digest-Digest :
      (cap : ℕ) (part : Part) → Readable part.ending → Digest (digest sha256_hex cap part)
  unfolding digest_and_size
  digest-Digest cap part h =
      go (digest_from cap part.chunks part.ending [] 0)
        (digest_from-Digest cap part.chunks part.ending [] 0 h)
    where
      go : (d : Result (Bytes × ℕ)) → Digest d → Digest (summarized sha256_hex d)
      go (ok r) k = tt
      go (err e) k = k

  module _ {X : Type 0} where
    module _ (part : Part) (meta : Attachment) (ctype : Text) (is_inline : Bool) where
      after_put-One :
          (meta : Attachment) (p : Result Text × X)
          → Yields (λ t. Unit) p
          → Yields One (continue p (λ t y. (ok (some (record meta { storage_ref = t }), none), y)))
      after_put-One meta (ok t, y) h = tt
      after_put-One meta (err e, y) h = h

      kept-One :
          (blob_store : Option (PutStream X)) (r : Text × ℕ) (x : X)
          → StoreReturns blob_store
          → Yields One (keep_stored sha256_hex part meta ctype blob_store is_inline r x)
      kept-One none r x h = tt
      kept-One (some put_stream) (hash, zero) x h = tt
      kept-One (some put_stream) (hash, suc n) x h =
          after_put-One (with_digest meta (hash, suc n))
            (put_stream hash part.chunks part.ending ctype x)
            (h hash part.chunks part.ending ctype x)

      module _ (blob_store : Option (PutStream X)) (stores : StoreReturns blob_store) where
        after_scan-One :
            (r : Text × ℕ) (p : Result ScanVerdict × X)
            → Yields (λ v. Unit) p
            → Yields One
                (continue p (scanned_policy sha256_hex part meta ctype blob_store is_inline r))
        unfolding strip_part
        after_scan-One r (ok ScanVerdict.allow, y) h = kept-One blob_store r y stores
        after_scan-One (hash, size) (ok ScanVerdict.block, y) h = tt
        after_scan-One r (err e, y) h = absurd h

        scan-One :
            (scanner : Option (Attachment → Exec X ScanVerdict)) (r : Text × ℕ) (x : X)
            → ScannerReturns scanner
            → Yields One (scan_policy sha256_hex part meta ctype blob_store is_inline scanner r x)
        scan-One none r x h = kept-One blob_store r x stores
        scan-One (some scan) r x h =
            after_scan-One r (scan (with_digest meta r) x) (h (with_digest meta r) x)

        strip-One :
            (e : Exc) (o : Option StripReason) (x : X)
            → (reason : StripReason) × (o ≡ some reason)
            → Yields One (strip_or_raise sha256_hex part meta ctype blob_store is_inline e o x)
        unfolding strip_part
        strip-One e o x (reason, q) = rw (q) tt

        digested-One :
            (scanner : Option (Attachment → Exec X ScanVerdict)) (d : Result (Text × ℕ)) (x : X)
            → ScannerReturns scanner
            → Digest d
            → Yields One (on_digest sha256_hex part meta ctype blob_store is_inline scanner d x)
        digested-One scanner (ok r) x h k = scan-One scanner r x h
        digested-One scanner (err e) x h k = strip-One e (digest_reason e) x k

        verdict-One :
            (rule : AttachmentRule X) (v : ScanVerdict) (x : X)
            → ScannerReturns rule.scanner
            → Readable part.ending
            → Yields One (digest_policy sha256_hex part meta ctype blob_store is_inline rule v x)
        unfolding strip_part
        verdict-One rule ScanVerdict.block x h k = tt
        verdict-One rule ScanVerdict.allow x h k =
            digested-One rule.scanner (digest sha256_hex rule.max_bytes part) x h
              (digest-Digest rule.max_bytes part k)

        pub process_policy-One :
            (p : AttachmentPolicy X) (x : X)
            → ScannerReturns p.real.scanner
            → ScannerReturns p.inline.scanner
            → Readable part.ending
            → Yields One (process_policy sha256_hex part meta ctype blob_store is_inline p x)
        unfolding process_policy
        process_policy-One p x h k l =
            let rule = if is_inline then p.inline else p.real in
            verdict-One rule (check_allowlist meta rule.allowlist).verdict x (chosen h k) l
          where
            chosen :
                ScannerReturns p.real.scanner
                → ScannerReturns p.inline.scanner
                → ScannerReturns (if is_inline then p.inline else p.real).scanner
            chosen h k = elim (Bool-cases is_inline) [ inl q ↦ rw (q) k | inr q ↦ rw (q) h ]
