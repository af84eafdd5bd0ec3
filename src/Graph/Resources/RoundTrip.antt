-- ===== src/Graph/Resources/RoundTrip.antt =====
-- What src/mailflow/adapters/graph/notifications.py reads from the resource that
-- src/mailflow/adapters/graph/subscriptions.py subscribes to.
use mailflow.Base.{
  ℕ, ==_iff, false, Option, none, Text, text, has_char, some, [], ◌∷◌, ◌++◌, is_empty, ◌≡◌, refl,
  arith,
}
use mailflow.Core.Models.{StreamRef}
use mailflow.Graph.Subscriptions.{folder_resource, folder_or_inbox}
use mailflow.Graph.Resources.{
  fold_char, after_literal, span_not, user_run, match_folder, search_folder,
  stream_from_folder_resource,
}

after_literal-append : (p s : Text) → after_literal p (p ++ s) ≡ some s
unfolding after_literal
after_literal-append [] s = refl
after_literal-append (a ∷ p) s =
    ground (arith, ==_iff (fold_char a) (fold_char a), after_literal-append p s)

span_not-append :
    (q : ℕ) (w s : Text) → has_char q w ≡ false → span_not (q ∷ []) (w ++ (q ∷ s)) ≡ (w, q ∷ s)
unfolding span_not has_char
span_not-append q [] s h = ground (arith, ==_iff q q)
span_not-append q (c ∷ w) s h = ground (arith, ==_iff q c, ==_iff c q, span_not-append q w s)

-- What stands behind the mailbox of a folder's resource, and behind the folder.
abbrev behind_folder : Text
behind_folder = text "')/messages"

abbrev behind_user : Text → Text
behind_user folder = text "/mailFolders('" ++ (folder ++ behind_folder)

user_run-append :
    (c : ℕ) (mailbox : Text) (d : ℕ) (folder : Text)
    → has_char b'/' (c ∷ mailbox) ≡ false
    → has_char b'\'' (d ∷ folder) ≡ false
    → user_run (some ((c ∷ mailbox) ++ behind_user (d ∷ folder))) ≡ some (c ∷ mailbox, d ∷ folder)
user_run-append c mailbox d folder h k = rw (
  span_not-append b'/' (c ∷ mailbox) (text "mailFolders('" ++ ((d ∷ folder) ++ behind_folder)) h,
  after_literal-append (text "/mailFolders('") ((d ∷ folder) ++ behind_folder),
  span_not-append b'\'' (d ∷ folder) (text ")/messages") k,
  after_literal-append (text "')") (text "/messages"),
)

match_folder-append :
    (c : ℕ) (mailbox : Text) (d : ℕ) (folder : Text)
    → has_char b'/' (c ∷ mailbox) ≡ false
    → has_char b'\'' (d ∷ folder) ≡ false
    → match_folder (text "users/" ++ ((c ∷ mailbox) ++ behind_user (d ∷ folder)))
      ≡ some (c ∷ mailbox, d ∷ folder)
unfolding match_folder
match_folder-append c mailbox d folder h k = user_run-append c mailbox d folder h k

-- The resource that a subscription for a stream names reads back as the stream, its folder written
-- out, where none or "" stands for "inbox": the mailbox is not empty and has no slash, and the folder has
-- no quote.
pub stream_from_folder_resource-folder_resource :
    (stream : StreamRef)
    → is_empty stream.mailbox ≡ false
    → has_char b'/' stream.mailbox ≡ false
    → has_char b'\'' (folder_or_inbox stream.folder) ≡ false
    → stream_from_folder_resource (folder_resource stream)
      ≡ some (record { mailbox = stream.mailbox; folder = some (folder_or_inbox stream.folder) })
unfolding stream_from_folder_resource search_folder folder_resource
stream_from_folder_resource-folder_resource stream full h k =
    by_parts stream.mailbox stream.folder full h k
  where
    found :
        (c : ℕ) (mailbox : Text) (d : ℕ) (folder : Text)
        → has_char b'/' (c ∷ mailbox) ≡ false
        → has_char b'\'' (d ∷ folder) ≡ false
        → stream_from_folder_resource (text "users/" ++ ((c ∷ mailbox) ++ behind_user (d ∷ folder)))
          ≡ some (record { mailbox = c ∷ mailbox; folder = some (d ∷ folder) })
    found c mailbox d folder h k = rw (match_folder-append c mailbox d folder h k)

    by_parts :
        (mailbox : Text) (folder : Option Text)
        → is_empty mailbox ≡ false
        → has_char b'/' mailbox ≡ false
        → has_char b'\'' (folder_or_inbox folder) ≡ false
        → stream_from_folder_resource
            (folder_resource (record { mailbox = mailbox; folder = folder }))
          ≡ some (record { mailbox = mailbox; folder = some (folder_or_inbox folder) })
    by_parts [] folder p h k = ground arith
    by_parts (c ∷ mailbox) none p h k = found c mailbox b'i' (text "nbox") h k
    by_parts (c ∷ mailbox) (some []) p h k = found c mailbox b'i' (text "nbox") h k
    by_parts (c ∷ mailbox) (some (d ∷ folder)) p h k = found c mailbox d folder h k
