-- ===== src/Extract/Bodies.antt =====
-- The walk over the parts of a message of src/mailflow/extract/mime.py.
pub mod Filenames
pub mod Counts
pub mod Parts
use mailflow.Base.{
  ℕ, zero, suc, ◌==◌, Bool, true, false, not, ◌&&◌, ◌||◌, ℤ, pos, Text, text, text_eq, is_empty,
  lower, strip, after_last, Option, none, some, List, [], ◌∷◌, ◌++◌, if◌then◌else◌,
}
use mailflow.Exec.{Exec, Exc, Result, ok, err, pure, ◌>>=◌, ◌>>◌}
use mailflow.Core.Models.{Attachment, StrippedAttachment, ScanVerdict, Bytes}
use mailflow.Extract.Attachments.{
  Part, AttachmentPolicy, PutStream, process_legacy, process_policy, lift_result,
}

-- s.lstrip("\x00")
abbrev drop_nul : Text → Text
drop_nul [] = []
drop_nul (zero ∷ s) = drop_nul s
drop_nul (suc c ∷ s) = suc c ∷ s

-- re.split(r"[\\/]", name)[-1].strip().lstrip("\x00")
unfoldable pub leaf_of : Text → Text
unfolding after_last strip
leaf_of name = drop_nul (strip (after_last b'\\' (after_last b'/' name)))

abbrev pub is_traversal : Text → Bool
is_traversal leaf = is_empty leaf || text_eq leaf (text ".") || text_eq leaf (text "..")

-- `_safe_filename`
unfoldable pub safe_filename : Option Text → Text
unfolding leaf_of text_eq
safe_filename none = []
safe_filename (some name) =
    if is_empty name then [] else if is_traversal (leaf_of name) then [] else leaf_of name

abbrev pub is_some_text : Option Text → Bool
is_some_text none = false
is_some_text (some t) = true

abbrev pub or_blank : Option Text → Text
or_blank none = []
or_blank (some t) = t

abbrev pub disposition_of : Part → Text
disposition_of part = lower (or_blank part.content_disposition)

-- ctype in ("text/plain", "text/html") and not filename and cid is None
unfoldable pub is_plain_body : Part → Bool
unfolding text_eq safe_filename
is_plain_body part =
    (text_eq part.content_type (text "text/plain") || text_eq part.content_type (text "text/html"))
    && is_empty (safe_filename part.filename)
    && not (is_some_text part.content_id)

unfoldable pub is_attachment : Part → Bool
unfolding text_eq safe_filename lower
is_attachment part =
    text_eq (disposition_of part) (text "attachment")
    || (not (is_empty (safe_filename part.filename))
        && not (text_eq (disposition_of part) (text "inline")))

unfoldable pub is_inline_media : Part → Bool
unfolding text_eq is_plain_body lower
is_inline_media part =
    is_some_text part.content_id
    || (text_eq (disposition_of part) (text "inline") && not (is_plain_body part))

abbrev pub is_media : Part → Bool
is_media part = is_attachment part || is_inline_media part

-- The attachment before it is checked.
unfoldable pub meta_of : Part → Attachment
unfolding safe_filename is_attachment is_inline_media
meta_of part = record {
  filename = safe_filename part.filename;
  content_type = part.content_type;
  size_bytes = pos 0;
  content_hash = [];
  content_id = or_blank part.content_id;
  is_inline = is_inline_media part && not (is_attachment part);
  provider_attachment_id = [];
  storage_ref = [];
}

-- How the extractor was set up: the knobs of the legacy path, or a policy.
pub data Mode (X : Type 0) : Type 0 where
  legacy : (Attachment → Exec X ScanVerdict) → List Text → ℕ → Mode X
  policy : AttachmentPolicy X → Mode X

-- What the loop has gathered.
pub record Walk : Type 0 where
  pub body_text : Text
  pub body_html : Text
  pub attachments : List Attachment
  pub stripped : List StrippedAttachment

abbrev pub no_walk : Walk
no_walk = record { body_text = []; body_html = []; attachments = []; stripped = [] }

abbrev add_some : {A : Type 0} → List A → Option A → List A
add_some l none = l
add_some l (some a) = l ++ (a ∷ [])

abbrev pub add_attachment : Walk → Attachment → Walk
add_attachment w a = record w { attachments = w.attachments ++ (a ∷ []) }

abbrev pub add_outcome : Walk → Option Attachment × Option StrippedAttachment → Walk
add_outcome w (kept, removed) = record w {
  attachments = add_some w.attachments kept;
  stripped = add_some w.stripped removed;
}

module _ (is_decode_error : Exc → Bool) (decode_replace : Bytes → Text) where
  abbrev payload_text : Part → Option Bytes → Text
  payload_text part none = part.shown_payload
  payload_text part (some payload) = decode_replace payload

  abbrev decoded_or : Part → Result Text → Result Text
  decoded_or part (ok content) = ok content
  decoded_or part (err e) = if is_decode_error e then ok (payload_text part part.payload) else err e

  -- `_decode_text`
  unfoldable pub decode_text : Part → Result Text
  decode_text part = decoded_or part part.content

  module _ {X : Type 0} (sha256_hex : Bytes → Text) (blob_store : Option (PutStream X))
      (mode : Mode X) where
    abbrev pub add_media : Part → Walk → Mode X → Exec X Walk
    add_media part w (legacy scan allowlist max_bytes) =
        process_legacy sha256_hex part (meta_of part) part.content_type blob_store scan allowlist
          max_bytes
        >>= λ a. pure (add_attachment w a)
    add_media part w (policy p) =
        process_policy sha256_hex part (meta_of part) part.content_type blob_store
          (is_inline_media part && not (text_eq (disposition_of part) (text "attachment"))) p
        >>= λ o. pure (add_outcome w o)

    abbrev pub set_text : Walk → Text → Walk
    set_text w t = record w { body_text = t }

    abbrev pub set_html : Walk → Text → Walk
    set_html w t = record w { body_html = t }

    abbrev pub add_body : Part → Walk → Exec X Walk
    add_body part w =
        if text_eq part.content_type (text "text/plain") && is_empty w.body_text
        then lift_result (decode_text part) >>= (λ t. pure (set_text w t))
        else if text_eq part.content_type (text "text/html") && is_empty w.body_html
        then lift_result (decode_text part) >>= (λ t. pure (set_html w t))
        else pure w

    -- The body of the loop.
    unfoldable pub add_part : Part → Walk → Exec X Walk
    unfolding text_eq is_attachment is_inline_media meta_of process_legacy process_policy
        decode_text lower
    add_part part w =
        if part.is_multipart
        then pure w
        else if is_media part
        then add_media part w mode
        else add_body part w

    unfoldable pub add_parts : List Part → Walk → Exec X Walk
    unfolding add_part
    add_parts [] w = pure w
    add_parts (part ∷ parts) w = add_part part w >>= add_parts parts
