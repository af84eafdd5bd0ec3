-- ===== src/Extract/Bodies/Counts.antt =====
-- Under a policy (src/mailflow/extract/mime.py) a message is walked to its end, and each of its media is counted.
use mailflow.Base.{
  ℕ, ◌+◌, Bool, Text, text, text_eq, Option, none, some, List, [], ◌∷◌, length, length-append, ◌≡◌,
  refl, inl, inr, Bool-cases, is_empty, if◌then◌else◌, ◌&&◌, not, arith,
}
use mailflow.Exec.{Exc, Result, ok, err, continue}
use mailflow.Core.Models.{Attachment, StrippedAttachment, Bytes}
use mailflow.Extract.Attachments.{Part, AttachmentPolicy, PutStream, process_policy}
use mailflow.Extract.Bodies.{
  Walk, is_media, is_inline_media, meta_of, disposition_of, decode_text, add_body, add_part,
  add_parts, add_outcome, policy,
}
use mailflow.Extract.Bodies.Parts.{
  Yields, One, Readable, ScannerReturns, StoreReturns, process_policy-One,
}

abbrev pub count : Walk → ℕ
count w = length w.attachments + length w.stripped

add_outcome-count :
    (w : Walk) (o : Option Attachment × Option StrippedAttachment)
    → One o
    → count (add_outcome w o) ≡ count w + 1
add_outcome-count w (some a, none) h = ground (arith, length-append w.attachments (a ∷ []))
add_outcome-count w (none, some s) h = ground (arith, length-append w.stripped (s ∷ []))
add_outcome-count w (none, none) h = absurd h
add_outcome-count w (some a, some s) h = absurd h

abbrev pub media_of : Part → ℕ
media_of part = if part.is_multipart then 0 else if is_media part then 1 else 0

abbrev pub media : List Part → ℕ
media [] = 0
media (part ∷ parts) = media_of part + media parts

module _ (is_decode_error : Exc → Bool) (decode_replace : Bytes → Text) where
  -- Each text can be decoded, and each attachment read or refused.
  abbrev pub Fine : List Part → Type 0
  Fine [] = Unit
  Fine (part ∷ parts) =
      Readable part.ending
      × ((t : Text) × (decode_text is_decode_error decode_replace part ≡ ok t))
      × Fine parts

  module _ {X : Type 0} (sha256_hex : Bytes → Text) (blob_store : Option (PutStream X))
      (p : AttachmentPolicy X) where
    abbrev pub Counted : Walk → ℕ → Result Walk × X → Type 0
    Counted w n r = Yields (λ w'. count w' ≡ count w + n) r

    outcome-Counted :
        (w : Walk) (r : Result (Option Attachment × Option StrippedAttachment) × X)
        → Yields One r
        → Counted w 1 (continue r (λ o y. (ok (add_outcome w o), y)))
    outcome-Counted w (ok o, y) h = add_outcome-count w o h
    outcome-Counted w (err e, y) h = h

    text-Counted :
        (w : Walk) (r : Result Text) (set : Text → Walk) (x : X)
        → ((t : Text) → count (set t) ≡ count w)
        → (t : Text) × (r ≡ ok t)
        → Counted w 0 (continue (r, x) (λ t y. (ok (set t), y)))
    text-Counted w r set x h (t, q) = rw (q) (ground (arith, h t))

    add_body-Counted :
        (part : Part) (w : Walk) (x : X)
        → (t : Text) × (decode_text is_decode_error decode_replace part ≡ ok t)
        → Counted w 0
            (add_body is_decode_error decode_replace sha256_hex blob_store (policy p) part w x)
    add_body-Counted part w x h =
        elim (Bool-cases (text_eq part.content_type (text "text/plain") && is_empty w.body_text)) [
          | inl q ↦ rw (q) (
              text-Counted w (decode_text is_decode_error decode_replace part)
                (λ t. record w { body_text = t }) x (λ t. refl) h)
          | inr q ↦
              rw (q)
                (elim (Bool-cases
                  (text_eq part.content_type (text "text/html") && is_empty w.body_html)) [
                    | inl q ↦ rw (q) (
                        text-Counted w (decode_text is_decode_error decode_replace part)
                          (λ t. record w { body_html = t }) x (λ t. refl) h)
                    | inr q ↦ rw (q) (omega arith)
                  ])
        ]

    abbrev adding : Part → Walk → X → Result Walk × X
    adding part w x =
        add_part is_decode_error decode_replace sha256_hex blob_store (policy p) part w x

    module _ (stores : StoreReturns blob_store) (real : ScannerReturns p.real.scanner)
        (inline : ScannerReturns p.inline.scanner) where
      add_part-Counted :
          (part : Part) (w : Walk) (x : X)
          → Readable part.ending
          → (t : Text) × (decode_text is_decode_error decode_replace part ≡ ok t)
          → Counted w (media_of part) (adding part w x)
      unfolding add_part
      add_part-Counted part w x h k = elim (Bool-cases part.is_multipart) [
        | inl q ↦ rw (q) (omega arith)
        | inr q ↦ rw (q) (elim (Bool-cases (is_media part)) [
          | inl q ↦ rw (q) (
              outcome-Counted w
                (process_policy sha256_hex part (meta_of part) part.content_type blob_store
                  (is_inline_media part && not (text_eq (disposition_of part) (text "attachment")))
                  p x)
                (process_policy-One sha256_hex part (meta_of part) part.content_type
                  (is_inline_media part && not (text_eq (disposition_of part) (text "attachment")))
                  blob_store stores p x real inline h))
          | inr q ↦ rw (q) (add_body-Counted part w x k)
        ])
      ]

      next-Counted :
          (w : Walk) (m n : ℕ) (r : Result Walk × X) (f : Walk → X → Result Walk × X)
          → Counted w m r
          → ((w' : Walk) (y : X) → Counted w' n (f w' y))
          → Counted w (m + n) (continue r f)
      next-Counted w m n (ok w', y) f h k = shift (f w' y) (k w' y)
        where
          shift : (r : Result Walk × X) → Counted w' n r → Counted w (m + n) r
          shift (ok v, z) l = ground (arith, h, l)
          shift (err e, z) l = l
      next-Counted w m n (err e, y) f h k = h

      -- Where the scanners of a policy and the blob store return, where each text can be decoded, and each attachment
      -- be read or be refused as unreadable, the walk over the parts of a message returns, and has gathered as many
      -- attachments and stripped ones, taken together, as there are attachments and inline media among the parts.
      pub add_parts-Counted :
          (parts : List Part) (w : Walk) (x : X)
          → Fine parts
          → Counted w
              (media parts)
              (add_parts is_decode_error decode_replace sha256_hex blob_store (policy p) parts w x)
      unfolding add_parts
      add_parts-Counted [] w x h = omega arith
      add_parts-Counted (part ∷ parts) w x h =
          next-Counted w (media_of part) (media parts) (adding part w x)
            (λ w'. λ y.
              add_parts is_decode_error decode_replace sha256_hex blob_store (policy p) parts w' y)
            (add_part-Counted part w x h.0 h.1) (λ w'. λ y. add_parts-Counted parts w' y h.2)
