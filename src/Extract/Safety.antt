-- ===== src/Extract/Safety.antt =====
-- The allowlist of src/mailflow/extract/safety.py.
use mailflow.Base.{
  Text, text, ◌||◌, List, [], ◌++◌, lower, has_char, after_last, is_empty, if◌then◌else◌,
}
use mailflow.Core.Models.{Attachment, ScanVerdict}
use mailflow.Filters.{mem_text}

pub record ScanResult : Type 0 where
  pub verdict : ScanVerdict
  pub reason : Text

abbrev pub allowed : ScanResult
allowed = record { verdict = ScanVerdict.allow; reason = [] }

-- name.rsplit(".", 1)[-1].lower() if "." in name else ""
unfoldable pub extension : Text → Text
extension name = if has_char b'.' name then lower (after_last b'.' name) else []

unfoldable pub check_allowlist : Attachment → List Text → ScanResult
unfolding extension mem_text
check_allowlist attachment allowlist =
    let ext = extension attachment.filename in
    if is_empty allowlist
    then allowed
    else if mem_text (lower attachment.content_type) allowlist || mem_text ext allowlist
    then allowed
    else record {
      verdict = ScanVerdict.block;
      reason = text "type not allowlisted: " ++ (attachment.content_type ++ (text " / ." ++ ext));
    }
