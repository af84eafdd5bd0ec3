-- ===== src/Graph/Resources.antt =====
-- The two patterns of src/mailflow/adapters/graph/notifications.py, which read a Graph resource: `re.search`
-- without regard to case. No two of a pattern's repetitions can share a character, so the longest run
-- of each is the only one that can match.
pub mod RoundTrip
use mailflow.Base.{
  ℕ, ◌==◌, Bool, true, false, ◌&&◌, ◌||◌, not, Text, text, lower_char, has_char, Option, none, some,
  [], ◌∷◌, ◌++◌, is_empty, if◌then◌else◌,
}
use mailflow.Core.Models.{StreamRef}

-- Python takes these letters for `i` and `s` too.
unfoldable pub fold_char : ℕ → ℕ
unfolding lower_char
fold_char c = if c == 0x130 || c == 0x131 then b'i' else if c == 0x17f then b's' else lower_char c

-- The text behind a literal that the text starts with.
unfoldable pub after_literal : Text → Text → Option Text
unfolding fold_char
after_literal [] s = some s
after_literal (a ∷ p) [] = none
after_literal (a ∷ p) (b ∷ s) = if fold_char a == fold_char b then after_literal p s else none

-- The longest run of characters that are not in `stops`, and the text behind it.
unfoldable pub span_not : Text → Text → Text × Text
unfolding has_char
span_not stops [] = ([], [])
span_not stops (c ∷ s) =
    let (run, rest) = span_not stops s in if has_char c stops then ([], c ∷ s) else (c ∷ run, rest)

abbrev ended : Bool → Text → Text → Option (Text × Text)
ended true user word = none
ended false user word = some (user, word)

abbrev second_run : Text → Text → Option Text → Option (Text × Text)
second_run stops user none = none
second_run stops user (some s) = ended (is_empty (span_not stops s).0) user (span_not stops s).0

abbrev behind_user : Text → Text → Text × Text → Option (Text × Text)
behind_user middle stops ([], rest) = none
behind_user middle stops (c ∷ r, rest) = second_run stops (c ∷ r) (after_literal middle rest)

abbrev first_run : Text → Text → Option Text → Option (Text × Text)
first_run middle stops none = none
first_run middle stops (some s) = behind_user middle stops (span_not (text "/") s)

-- users/([^/]+)<middle>([^<stops>]+) at the start of the text.
unfoldable pub match_user : Text → Text → Text → Option (Text × Text)
unfolding after_literal span_not
match_user middle stops s = first_run middle stops (after_literal (text "users/") s)

abbrev pub first_of_two : {A : Type 0} → Option A → Option A → Option A
first_of_two (some a) o = some a
first_of_two none o = o

unfoldable pub search_user : Text → Text → Text → Option (Text × Text)
unfolding match_user
search_user middle stops [] = match_user middle stops []
search_user middle stops (c ∷ s) =
    first_of_two (match_user middle stops (c ∷ s)) (search_user middle stops s)

-- `_RESOURCE_RE.search`: the user and the message.
unfoldable pub search_resource : Text → Option (Text × Text)
unfolding search_user
search_resource s = search_user (text "/messages/") (text "/?") s

-- A run that a closing text must follow.
abbrev closed : Option Text → Text → Text → Option (Text × Text)
closed none user folder = none
closed (some rest) user folder = ended (is_empty folder) user folder

abbrev closing : Text → Text × Text → Option (Text × Text)
closing user (folder, rest) = closed (after_literal (text "')") rest) user folder

abbrev folder_run : Text → Option Text → Option (Text × Text)
folder_run user none = none
folder_run user (some s) = closing user (span_not (text "'") s)

abbrev open_folder : Text × Text → Option (Text × Text)
open_folder ([], rest) = none
open_folder (c ∷ r, rest) = folder_run (c ∷ r) (after_literal (text "/mailFolders('") rest)

abbrev pub user_run : Option Text → Option (Text × Text)
user_run none = none
user_run (some s) = open_folder (span_not (text "/") s)

-- users/([^/]+)/mailFolders\('([^']+)'\) at the start of the text.
unfoldable pub match_folder : Text → Option (Text × Text)
unfolding after_literal span_not
match_folder s = user_run (after_literal (text "users/") s)

-- `_FOLDER_RESOURCE_RE.search`
unfoldable pub search_folder : Text → Option (Text × Text)
unfolding match_folder
search_folder [] = match_folder []
search_folder (c ∷ s) = first_of_two (match_folder (c ∷ s)) (search_folder s)

abbrev stream_of : Option (Text × Text) → Option StreamRef
stream_of none = none
stream_of (some (user, folder)) = some (record { mailbox = user; folder = some folder })

-- `_stream_from_folder_resource`
unfoldable pub stream_from_folder_resource : Text → Option StreamRef
unfolding search_folder
stream_from_folder_resource resource = stream_of (search_folder resource)
