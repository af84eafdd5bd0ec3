-- ===== src/Tests/Parts.antt =====
-- The stores, the identities and the filters.
use mailflow.Base.{
  ◌+◌, text, text_eq, text_Eq, pos, lower, lower_char, strip, starts_with, has_char, true, false,
  leb, none, some, [], ◌∷◌, ◌≡◌, refl, length, if◌then◌else◌, ◌⊎◌,
}
use mailflow.Dict
use mailflow.Dict.{NodupKeys}
use mailflow.Core.Models.{Cursor, keep, drop, uncertain, Envelope}
use mailflow.Core.Filtering.{FilterContext}
use mailflow.Core.Identity.{is_message_id_trusted}
use mailflow.Core.Identity.Keys.{idempotency_key_injective}
use mailflow.Ports.Bookmarks.{Commit, NotBehind, apply_commits, bookmarks_forward}
use mailflow.Stores.SqliteCursor.{sqlite_cursors}
use mailflow.Stores.Claim.{Claim, new_claim}
use mailflow.Stores.MemoryDedupe.{expired_keys, delete_keys}
use mailflow.Stores.SqliteDedupe
use mailflow.Stores.SqliteDedupe.{State, delete_expired}
use mailflow.Stores.SqliteDedupe.Lease.{lease_decides}
use mailflow.Stores.SqliteDedupe.Purge.{purges_agree}
use mailflow.Filters.{evaluate, whitelist, blacklist, only_domain}
use mailflow.Filters.Senders.{domain_filters_agree}
use mailflow.Pipeline.Work.{context}
use mailflow.Samples.{dedupe, cursors, config, inbox, clock, envelope, working}

abbrev early : Cursor
early = record { value = text "a"; order = pos 3 }

abbrev late : Cursor
late = record { value = text "b"; order = pos 8 }

abbrev commit_of : Cursor → Commit
commit_of c = record { tenant = text "acme"; stream = inbox; cursor = c }

bookmarks_forward_example : NotBehind (sqlite_cursors.get (text "acme") inbox []) (
    sqlite_cursors.get
      (text "acme")
      inbox
      (apply_commits sqlite_cursors (commit_of late ∷ commit_of early ∷ []) []))
bookmarks_forward_example =
    bookmarks_forward sqlite_cursors (commit_of late ∷ commit_of early ∷ []) (text "acme") inbox []

-- A claim that was taken at 0.
abbrev held : State
held = record { claims = (text "k", new_claim true 0) ∷ []; ticks = 300 }

held_found : Dict.get held.claims (text "k") ≡ some (new_claim true 0)
unfolding Dict.get text_eq
held_found = refl

lease_decides_instance :
    let (won, s') = SqliteDedupe.try_claim clock (text "k") 300 held in
    (won ≡ leb (0 + 300) (clock held.ticks))
    × (Dict.get s'.claims (text "k")
        ≡ some (
            if leb (0 + 300) (clock held.ticks)
            then record (new_claim true 0) { claimed_at = clock held.ticks }
            else new_claim true 0))
lease_decides_instance =
    lease_decides clock (text "k") 300 held (new_claim true 0) held_found refl refl

abbrev over : Claim
over = record { claimed = true; done = true; attempts = 1; claimed_at = 0; expires_at = some 5 }

over-NodupKeys : NodupKeys ((text "k", over) ∷ (text "j", new_claim true 0) ∷ [])
unfolding Dict.get text_eq
over-NodupKeys = (refl, (refl, tt))

purges_agree_example :
    (
      length (expired_keys 9 ((text "k", over) ∷ (text "j", new_claim true 0) ∷ [])),
      delete_keys
          (expired_keys 9 ((text "k", over) ∷ (text "j", new_claim true 0) ∷ []))
          ((text "k", over) ∷ (text "j", new_claim true 0) ∷ []),
    )
    ≡ delete_expired 9 ((text "k", over) ∷ (text "j", new_claim true 0) ∷ [])
purges_agree_example =
    purges_agree 9 ((text "k", over) ∷ (text "j", new_claim true 0) ∷ []) over-NodupKeys

-- No "|" in the tenant and none in the mailbox.
no_bar_tenant : has_char b'|' (text "acme") ≡ false
unfolding has_char
no_bar_tenant = refl

no_bar_mailbox : has_char b'|' (text "ops@acme.com") ≡ false
unfolding has_char
no_bar_mailbox = refl

idempotency_key_injective_example :
    (text "acme" ≡ text "acme")
    × (text "ops@acme.com" ≡ text "ops@acme.com")
    × (text "a|b" ≡ text "a|b")
idempotency_key_injective_example =
    idempotency_key_injective (text "acme") (text "acme") (text "ops@acme.com")
      (text "ops@acme.com") (text "a|b") (text "a|b") no_bar_tenant no_bar_tenant no_bar_mailbox
      no_bar_mailbox refl

trusted : is_message_id_trusted (some (text " <1@b.c>")) ≡ true
unfolding is_message_id_trusted strip starts_with has_char
trusted = refl

bare : is_message_id_trusted (some (text "1@b.c")) ≡ false
unfolding is_message_id_trusted strip starts_with has_char
bare = refl

missing : is_message_id_trusted none ≡ false
unfolding is_message_id_trusted
missing = refl

abbrev now_context : FilterContext
now_context = context working dedupe cursors config

-- The same sender, spelled in lower case.
abbrev lowered : Envelope
lowered = record envelope { from_ = record { name = []; address = text "a@spam.com" } }

same_sender : lower envelope.from_.address ≡ lower lowered.from_.address
unfolding lower lower_char
same_sender = refl

domain_filters_agree_instance :
    let kept = (evaluate (whitelist (text "spam.com" ∷ [])) envelope now_context).decision in
    ((kept ≡ keep)
      × ((evaluate (blacklist (text "spam.com" ∷ [])) envelope now_context).decision ≡ drop)
      × ((evaluate (only_domain (text "spam.com" ∷ [])) envelope now_context).decision ≡ uncertain))
    ⊎ ((kept ≡ uncertain)
        × ((evaluate (blacklist (text "spam.com" ∷ [])) envelope now_context).decision ≡ uncertain)
        × ((evaluate (only_domain (text "spam.com" ∷ [])) envelope now_context).decision ≡ drop))
domain_filters_agree_instance =
    domain_filters_agree (text "spam.com" ∷ []) envelope now_context refl
