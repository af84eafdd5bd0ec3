-- ===== src/Filters.antt =====
-- src/mailflow/filters: the built-in filters (deterministic.py) and the chain (chain.py). The class
-- of a filter is a constructor that carries its fields; sets are lists. A compiled pattern is its
-- text with its `search`.
pub mod Chain
pub mod Defaults
pub mod Senders
use mailflow.Base.{
  Text, text, text_eq, Bool, true, false, ◌&&◌, ◌||◌, not, Option, none, some, List, [], ◌∷◌, ◌++◌,
  map, is_empty, lower, has_char, after_last, if◌then◌else◌,
}
use mailflow.Core.Models.{Envelope, Recipient}
use mailflow.Core.Filtering.{FilterContext, FilterDecision, keep, drop, uncertain}

pub record Pattern : Type 0 where
  pub pattern : Text
  pub search : Text → Bool

pub data BuiltInFilter : Type 0 where
  whitelist blacklist only_domain only_sender block_sender : List Text → BuiltInFilter
  internal_domain no_personal : List Text → BuiltInFilter
  subject : List Pattern → BuiltInFilter
  to cc : List Text → List Pattern → BuiltInFilter
  list_mail : BuiltInFilter
  function : (Envelope → Bool) → BuiltInFilter

unfoldable pub mem_text : Text → List Text → Bool
unfolding text_eq
mem_text t [] = false
mem_text t (u ∷ us) = text_eq t u || mem_text t us

unfoldable pub domain : Text → Text
domain address = if has_char b'@' address then lower (after_last b'@' address) else []

-- The inner loop of `_recipient_match`.
unfoldable pub pattern_match : Text → List Pattern → Option Text
pattern_match address [] = none
pattern_match address (p ∷ ps) =
    if p.search address then some (text "~ " ++ p.pattern) else pattern_match address ps

unfoldable pub recipient_match : List Recipient → List Text → List Pattern → Option Text
unfolding pattern_match mem_text lower
recipient_match [] addresses patterns = none
recipient_match (r ∷ rs) addresses patterns =
    let rest = recipient_match rs addresses patterns in
    if mem_text (lower r.address) addresses
    then some (text "address " ++ lower r.address)
    else elim (pattern_match r.address patterns) [ none ↦ rest | some reason ↦ some reason ]

abbrev pub personal_domains : List Text
personal_domains =
    text "gmail.com"
    ∷ text "googlemail.com"
    ∷ text "yahoo.com"
    ∷ text "yahoo.co.in"
    ∷ text "hotmail.com"
    ∷ text "outlook.com"
    ∷ text "live.com"
    ∷ text "icloud.com"
    ∷ text "me.com"
    ∷ text "aol.com"
    ∷ text "proton.me"
    ∷ text "protonmail.com"
    ∷ []

-- The constructors of the classes: every configured domain or address is lowered.
unfoldable pub new_whitelist : List Text → BuiltInFilter
new_whitelist domains = whitelist (map lower domains)

unfoldable pub new_blacklist : List Text → BuiltInFilter
new_blacklist domains = blacklist (map lower domains)

unfoldable pub new_only_domain : List Text → BuiltInFilter
new_only_domain domains = only_domain (map lower domains)

unfoldable pub new_only_sender : List Text → BuiltInFilter
new_only_sender addresses = only_sender (map lower addresses)

unfoldable pub new_block_sender : List Text → BuiltInFilter
new_block_sender addresses = block_sender (map lower addresses)

unfoldable pub new_internal_domain : List Text → BuiltInFilter
new_internal_domain domains = internal_domain (map lower domains)

abbrev or_empty : {A : Type 0} → Option (List A) → List A
or_empty none = []
or_empty (some l) = l

unfoldable pub new_to : Option (List Text) → Option (List Pattern) → BuiltInFilter
new_to addresses patterns = to (map lower (or_empty addresses)) (or_empty patterns)

unfoldable pub new_cc : Option (List Text) → Option (List Pattern) → BuiltInFilter
new_cc addresses patterns = cc (map lower (or_empty addresses)) (or_empty patterns)

-- None and the empty set stand for the default domains.
unfoldable pub new_no_personal : Option (List Text) → BuiltInFilter
new_no_personal none = no_personal personal_domains
new_no_personal (some []) = no_personal personal_domains
new_no_personal (some (d ∷ ds)) = no_personal (map lower (d ∷ ds))

abbrev on_recipients : Text → List Recipient → List Text → List Pattern → FilterDecision
on_recipients name recipients addresses patterns =
    if is_empty addresses && is_empty patterns
    then uncertain
    else elim (recipient_match recipients addresses patterns) [
      | none ↦ uncertain
      | some reason ↦ drop name reason
    ]

-- The loop of `SubjectFilter.evaluate`.
unfoldable pub subject_match : Text → List Pattern → FilterDecision
subject_match line [] = uncertain
subject_match line (p ∷ ps) =
    if p.search line
    then drop (text "subject") (text "subject ~ " ++ p.pattern)
    else subject_match line ps

abbrev has_content : Option Text → Bool
has_content none = false
has_content (some t) = not (is_empty t)

unfoldable pub evaluate : BuiltInFilter → Envelope → FilterContext → FilterDecision
evaluate (whitelist domains) env ctx =
    if not (is_empty domains) && mem_text (domain env.from_.address) domains
    then keep (text "whitelist") (text "domain " ++ domain env.from_.address)
    else uncertain
evaluate (blacklist domains) env ctx =
    if not (is_empty domains) && mem_text (domain env.from_.address) domains
    then drop (text "blacklist") (text "domain " ++ domain env.from_.address)
    else uncertain
evaluate (only_domain domains) env ctx =
    if is_empty domains
    then uncertain
    else if mem_text (domain env.from_.address) domains
    then uncertain
    else drop (text "only_domain") (text "domain not allowed")
evaluate (only_sender addresses) env ctx =
    if is_empty addresses
    then uncertain
    else if mem_text (lower env.from_.address) addresses
    then uncertain
    else drop (text "only_sender") (text "sender not allowed")
evaluate (block_sender addresses) env ctx =
    if mem_text (lower env.from_.address) addresses
    then drop (text "block_sender") (text "sender blocked")
    else uncertain
evaluate (internal_domain domains) env ctx =
    if not (is_empty domains) && mem_text (domain env.from_.address) domains
    then drop (text "internal_domain") (text "internal domain")
    else uncertain
evaluate (subject patterns) env ctx = subject_match env.subject patterns
evaluate (to addresses patterns) env ctx = on_recipients (text "to") env.to addresses patterns
evaluate (cc addresses patterns) env ctx = on_recipients (text "cc") env.cc addresses patterns
evaluate list_mail env ctx =
    if has_content env.list_id || env.is_auto_submitted
    then drop (text "list_mail") (text "list/auto-submitted header present")
    else uncertain
evaluate (no_personal domains) env ctx =
    if mem_text (domain env.from_.address) domains
    then drop (text "no_personal") (text "personal domain")
    else uncertain
evaluate (function fn) env ctx =
    if fn env then uncertain else drop (text "custom") (text "custom function")
