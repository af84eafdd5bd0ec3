-- ===== src/Extract/Clean.antt =====
-- src/mailflow/extract/clean.py. `re.sub` is a walk over the text with the length of a match at each place;
-- `html.unescape` and the test for a character of a word are parameters.
pub mod Markers
pub mod Spaces
use mailflow.Base.{
  ℕ, zero, suc, ◌==◌, Bool, true, false, not, ◌+◌, ◌&&◌, Text, text, is_space, lstrip, strip,
  is_empty, drop, length, Option, none, some, [], ◌∷◌, ◌++◌, if◌then◌else◌,
}
use mailflow.Dict.{on_some}
use mailflow.Core.Models.{CleanEmail}
use mailflow.Graph.Resources.{fold_char, first_of_two}

-- One place of `re.sub`: the character stays where nothing matches, and `rest n` follows a match of n + 1.
abbrev pub replace_at : Text → ℕ → (ℕ → Text) → Option ℕ → Text
replace_at by c rest none = c ∷ rest 0
replace_at by c rest (some n) = by ++ rest n

-- re.sub(pattern, with, s): `match` gives the length of the match at the start of a text, less one, and `skip`
-- counts what is left of a match.
unfoldable pub replace_all : (Text → Option ℕ) → Text → ℕ → Text → Text
replace_all match by skip [] = []
replace_all match by (suc skip) (c ∷ s) = replace_all match by skip s
replace_all match by zero (c ∷ s) = replace_at by c (λ n. replace_all match by n s) (match (c ∷ s))

-- How far it is to the first character after a `>`; none where there is none.
unfoldable pub to_close : Text → Option ℕ
to_close [] = none
to_close (c ∷ s) = if c == b'>' then some 1 else on_some suc (to_close s)

abbrev tag_end : Option ℕ → Option ℕ
tag_end none = none
tag_end (some zero) = none
tag_end (some (suc zero)) = none
tag_end (some (suc (suc n))) = some (suc (suc n))

-- <[^>]+>
unfoldable pub match_tag : Text → Option ℕ
unfolding to_close
match_tag [] = none
match_tag (c ∷ s) = if c == b'<' then tag_end (to_close s) else none

-- How many characters of white space a text starts with.
unfoldable pub space_run : Text → ℕ
unfolding is_space
space_run [] = 0
space_run (d ∷ t) = if is_space d then suc (space_run t) else 0

-- \s+
unfoldable pub match_spaces : Text → Option ℕ
unfolding space_run
match_spaces [] = none
match_spaces (c ∷ s) = if is_space c then some (space_run s) else none

-- The length of a literal that a text starts with, whatever the case.
unfoldable pub match_literal : Text → Text → Option ℕ
unfolding fold_char
match_literal [] s = some 0
match_literal (a ∷ p) [] = none
match_literal (a ∷ p) (b ∷ s) =
    if fold_char a == fold_char b then on_some suc (match_literal p s) else none

-- The first place of a literal, and the end of it there.
unfoldable pub find_end : Text → Text → Option ℕ
unfolding match_literal
find_end p [] = match_literal p []
find_end p (c ∷ s) = elim (match_literal p (c ∷ s)) [
  | some n ↦ some n
  | none ↦ on_some suc (find_end p s)
]

-- _WS.sub(" ", s).strip()
unfoldable pub squeeze : Text → Text
unfolding replace_all match_spaces strip
squeeze s = strip (replace_all match_spaces (text " ") 0 s)

abbrev after_colon : Text → Option Text
after_colon [] = none
after_colon (c ∷ s) = if c == b':' then some (lstrip s) else none

abbrev marker : Text → Text → Option ℕ → Option Text
marker name s none = none
marker name s (some n) = after_colon (lstrip (drop n s))

-- What stands behind (?:re|fwd|fw)\s*:\s* at the start of a text.
unfoldable pub reply_marker : Text → Option Text
unfolding match_literal lstrip
reply_marker s = first_of_two (marker (text "re") s (match_literal (text "re") s)) (
    first_of_two (marker (text "fwd") s (match_literal (text "fwd") s))
      (marker (text "fw") s (match_literal (text "fw") s)))

-- Every marker at the start; the fuel is more than their number.
unfoldable pub drop_markers : ℕ → Text → Text
unfolding reply_marker
drop_markers zero s = s
drop_markers (suc fuel) s = elim (reply_marker s) [ none ↦ s | some rest ↦ drop_markers fuel rest ]

abbrev without_prefix : Text → Option Text → Text
without_prefix s none = s
without_prefix s (some rest) = drop_markers (length s) rest

unfoldable pub normalize_subject : Text → Text
unfolding drop_markers squeeze
normalize_subject [] = []
normalize_subject (c ∷ s) = squeeze (without_prefix (c ∷ s) (reply_marker (lstrip (c ∷ s))))

module _ (is_word : ℕ → Bool) where
  abbrev starts_word : Text → Bool
  starts_word [] = false
  starts_word (c ∷ s) = is_word c

  abbrev to_end : Text → ℕ → Text → Option ℕ → Option ℕ
  to_end name n rest none = none
  to_end name n rest (some k) =
      on_some (◌+◌ (n + k)) (find_end (text "</" ++ (name ++ text ">")) (drop k rest))

  abbrev block_behind : Text → Text → Option ℕ → Option ℕ
  block_behind name s none = none
  block_behind name s (some n) =
      let rest = drop n s in if starts_word rest then none else to_end name n rest (to_close rest)

  -- <(script|style)\b[^>]*>.*?</\1>, whatever the case, across lines.
  unfoldable pub match_block : Text → Option ℕ
  unfolding find_end to_close
  match_block [] = none
  match_block (c ∷ s) =
      if c == b'<'
      then first_of_two (block_behind (text "script") s (match_literal (text "script") s))
          (block_behind (text "style") s (match_literal (text "style") s))
      else none

  module _ (unescape : Text → Text) where
    unfoldable pub html_to_text : Text → Text
    unfolding match_block match_tag squeeze
    html_to_text [] = []
    html_to_text (c ∷ s) = squeeze (
        unescape
          (replace_all match_tag (text " ") 0 (replace_all match_block (text " ") 0 (c ∷ s))))

    -- `ThinContentCleaner.clean`
    unfoldable pub clean : CleanEmail → CleanEmail
    unfolding html_to_text
    clean email =
        if is_empty email.body_text && not (is_empty email.body_html)
        then record email { body_text = html_to_text email.body_html }
        else email
