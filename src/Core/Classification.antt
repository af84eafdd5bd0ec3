-- ===== src/Core/Classification.antt =====
-- src/mailflow/core/classification.py
use mailflow.Base.{
  Text, text, text_eq, Bool, true, false, ◌&&◌, ◌||◌, not, Option, none, some, [], is_empty, strip,
  lower, has_text, before_first, if◌then◌else◌,
}

unfoldable pub derive_auto_submitted : Option Text → Bool
unfolding strip lower text_eq
derive_auto_submitted none = false
derive_auto_submitted (some v) = not (is_empty v) && not (text_eq (lower (strip v)) (text "no"))

abbrev is_daemon : Text → Bool
is_daemon local = text_eq local (text "mailer-daemon") || text_eq local (text "postmaster")

abbrev is_null_path : Option Text → Bool
is_null_path none = false
is_null_path (some p) = text_eq (strip p) [] || text_eq (strip p) (text "<>")

abbrev or_blank : Option Text → Text
or_blank none = []
or_blank (some t) = t

unfoldable pub derive_is_bounce : Text → Option Text → Option Text → Bool
unfolding strip lower text_eq has_text before_first
derive_is_bounce from_address return_path content_type =
    let local = lower (strip (before_first b'@' from_address)) in
    let ct = lower (or_blank content_type) in
    if is_daemon local
    then true
    else if is_null_path return_path
    then true
    else has_text (text "multipart/report") ct && has_text (text "delivery-status") ct
