-- ===== src/Extract/Clean/Spaces.antt =====
-- What src/mailflow/extract/clean.py leaves of the white space of a text.
use mailflow.Base.{
  ℕ, zero, suc, Bool, true, false, Text, text, is_space, lstrip, rstrip, strip, none, some, [], ◌∷◌,
  Bool-cases, inl, inr, ◌≡◌, ◌≢◌, refl, sym, ◌∙◌, if◌then◌else◌, is_empty, not, ◌&&◌, ap,
}
use mailflow.Extract.Clean.{
  replace_all, match_spaces, space_run, squeeze, html_to_text, normalize_subject, clean, match_tag,
  match_block, reply_marker, without_prefix,
}
use mailflow.Core.Models.{CleanEmail}

abbrev starts_space : Text → Bool
starts_space [] = false
starts_space (c ∷ s) = is_space c

-- Every white space is a space of its own.
abbrev pub Single : Text → Type 0
Single [] = Unit
Single (c ∷ s) = (is_space c ≡ true → (c ≡ b' ') × (starts_space s ≡ false)) × Single s

match_spaces-cons :
    (c : ℕ) (s : Text) → match_spaces (c ∷ s) ≡ (if is_space c then some (space_run s) else none)
unfolding match_spaces
match_spaces-cons c s = refl

space_run-cons :
    (c : ℕ) (s : Text) → space_run (c ∷ s) ≡ (if is_space c then suc (space_run s) else 0)
unfolding space_run
space_run-cons c s = refl

abbrev squeezing : ℕ → Text → Text
squeezing skip s = replace_all match_spaces (text " ") skip s

module _ (c : ℕ) (s : Text) where
  at_space : is_space c ≡ true → squeezing 0 (c ∷ s) ≡ b' ' ∷ squeezing (space_run s) s
  unfolding replace_all
  at_space e = rw (match_spaces-cons c s, e)

  at_other : is_space c ≡ false → squeezing 0 (c ∷ s) ≡ c ∷ squeezing 0 s
  unfolding replace_all
  at_other e = rw (match_spaces-cons c s, e)

  run_space : is_space c ≡ true → squeezing (space_run (c ∷ s)) (c ∷ s) ≡ squeezing (space_run s) s
  unfolding replace_all
  run_space e = rw (space_run-cons c s, e)

  run_other : is_space c ≡ false → squeezing (space_run (c ∷ s)) (c ∷ s) ≡ c ∷ squeezing 0 s
  unfolding replace_all
  run_other e = rw (space_run-cons c s, e, match_spaces-cons c s, e)

true≢false : true ≢ false
true≢false h = cc

abbrev Rest : Text → Type 0
Rest t = (starts_space t ≡ false) × Single t

space_is_space : is_space b' ' ≡ true
unfolding is_space
space_is_space = refl

squeezing_nil : (skip : ℕ) → squeezing skip [] ≡ []
unfolding replace_all
squeezing_nil zero = refl
squeezing_nil (suc skip) = refl

squeezed : (s : Text) → Single (squeezing 0 s) × Rest (squeezing (space_run s) s)
unfolding space_run
squeezed [] = (none_left.1, none_left)
  where
    none_left : Rest (squeezing (space_run []) [])
    none_left = rw (squeezing_nil (space_run [])) (refl, tt)
squeezed (c ∷ s) = go (is_space c) refl (squeezed s)
  where
    go :
        (b : Bool)
        → is_space c ≡ b
        → Single (squeezing 0 s) × Rest (squeezing (space_run s) s)
        → Single (squeezing 0 (c ∷ s)) × Rest (squeezing (space_run (c ∷ s)) (c ∷ s))
    go true e h = rw (at_space c s e, run_space c s e) (((λ u. (refl, h.1.0)), h.1.1), h.1)
    go false e h =
        rw (at_other c s e, run_other c s e)
          (
            ((λ u. absurd (true≢false (sym u ∙ e))), h.0),
            (e, ((λ u. absurd (true≢false (sym u ∙ e))), h.0)),
          )

lstrip-Single : (s : Text) → Single s → Single (lstrip s) × (starts_space (lstrip s) ≡ false)
unfolding lstrip
lstrip-Single [] h = (tt, refl)
lstrip-Single (c ∷ s) h = elim (Bool-cases (is_space c)) [
  | inl e ↦ rw (e) (lstrip-Single s h.1)
  | inr e ↦ rw (e) (h, e)
]

unfoldable pub keep_or_drop : ℕ → Text → Text
unfolding is_space
keep_or_drop c [] = if is_space c then [] else c ∷ []
keep_or_drop c (d ∷ r) = c ∷ d ∷ r

pub rstrip-cons : (c : ℕ) (s : Text) → rstrip (c ∷ s) ≡ keep_or_drop c (rstrip s)
unfolding rstrip keep_or_drop
rstrip-cons c s = elim (rstrip s) [ [] ↦ refl | d ∷ r ↦ refl ]

abbrev Ends : Text → Type 0
Ends s = rstrip s ≡ s

starts_space-keep :
    (c : ℕ) (r : Text) → is_space c ≡ false → starts_space (keep_or_drop c r) ≡ false
unfolding keep_or_drop
starts_space-keep c [] e = rw (e) e
starts_space-keep c (d ∷ r) e = e

starts_space-rstrip : (s : Text) → starts_space s ≡ false → starts_space (rstrip s) ≡ false
unfolding rstrip
starts_space-rstrip [] e = refl
starts_space-rstrip (c ∷ s) e = rw (rstrip-cons c s) (starts_space-keep c (rstrip s) e)

keep-Single :
    (c : ℕ) (r : Text)
    → (is_space c ≡ true → (c ≡ b' ') × (starts_space r ≡ false))
    → Single r
    → Single (keep_or_drop c r)
unfolding keep_or_drop
keep-Single c [] h k = elim (Bool-cases (is_space c)) [
  | inl e ↦ rw (e) tt
  | inr e ↦ rw (e) (((λ u. absurd (true≢false (sym u ∙ e))), tt))
]
keep-Single c (d ∷ r) h k = (h, k)

rstrip-Single : (s : Text) → Single s → Single (rstrip s)
unfolding rstrip
rstrip-Single [] h = tt
rstrip-Single (c ∷ s) h = rw (rstrip-cons c s) (
    keep-Single c (rstrip s) (λ e. ((h.0 e).0, starts_space-rstrip s (h.0 e).1))
      (rstrip-Single s h.1))

keep-Ends : (c : ℕ) (r : Text) → rstrip r ≡ r → rstrip (keep_or_drop c r) ≡ keep_or_drop c r
unfolding keep_or_drop rstrip
keep-Ends c [] e = elim (Bool-cases (is_space c)) [ inl h ↦ rw (h) refl | inr h ↦ rw (h, h) refl ]
keep-Ends c (d ∷ r) e = rw (rstrip-cons c (d ∷ r), e) refl

rstrip-Ends : (s : Text) → rstrip (rstrip s) ≡ rstrip s
unfolding rstrip
rstrip-Ends [] = refl
rstrip-Ends (c ∷ s) = rw (rstrip-cons c s) (keep-Ends c (rstrip s) (rstrip-Ends s))

-- White space between words is a single space, and there is none at either end.
abbrev pub Squeezed : Text → Type 0
Squeezed s = Single s × (starts_space s ≡ false) × (rstrip s ≡ s)

squeeze-Squeezed : (s : Text) → Squeezed (squeeze s)
unfolding squeeze strip
squeeze-Squeezed s =
    let h = lstrip-Single (squeezing 0 s) (squeezed s).0 in
    (
      rstrip-Single (lstrip (squeezing 0 s)) h.0,
      starts_space-rstrip (lstrip (squeezing 0 s)) h.1,
      rstrip-Ends (lstrip (squeezing 0 s)),
    )

blank : (s t : Text) → s ≡ [] → t ≢ [] → (is_empty s && not (is_empty t)) ≡ true
blank s [] e h = absurd (h refl)
blank s (c ∷ t) e h = rw (e) refl

module _ (is_word : ℕ → Bool) (unescape : Text → Text) where
  html_to_text-Squeezed : (s : Text) → Squeezed (html_to_text is_word unescape s)
  unfolding html_to_text
  html_to_text-Squeezed [] = (tt, refl, refl)
  html_to_text-Squeezed (c ∷ s) = squeeze-Squeezed (
      unescape (
        replace_all match_tag (text " ") 0
          (replace_all (match_block is_word) (text " ") 0 (c ∷ s))))

  is_html : CleanEmail → Bool
  is_html email = is_empty email.body_text && not (is_empty email.body_html)

  abbrev filled : CleanEmail → CleanEmail
  filled email = record email { body_text = html_to_text is_word unescape email.body_html }

  abbrev cleaned : CleanEmail → CleanEmail
  cleaned email = clean is_word unescape email

  cleaned-text : (email : CleanEmail) → is_html email ≡ false → cleaned email ≡ email
  unfolding clean is_html
  cleaned-text email e = rw (e) refl

  cleaned-html : (email : CleanEmail) → is_html email ≡ true → cleaned email ≡ filled email
  unfolding clean is_html
  cleaned-html email e = rw (e) refl

  cleaned_twice : (email : CleanEmail) → cleaned (cleaned email) ≡ cleaned email
  cleaned_twice email = elim (Bool-cases (is_html email)) [
    | inl e ↦ rw (cleaned-html email e) (elim (Bool-cases (is_html (filled email))) [
      | inl h ↦ cleaned-html (filled email) h
      | inr h ↦ cleaned-text (filled email) h
    ])
    | inr e ↦ ap cleaned (cleaned-text email e)
  ]

  -- A clean of an email that has a body in HTML and no text gives it a text whose words stand a single space
  -- apart, with none at either end; nothing else of the email changes, and a second clean changes nothing.
  pub clean-Squeezed :
      (email : CleanEmail)
      → email.body_text ≡ []
      → email.body_html ≢ []
      → Squeezed (cleaned email).body_text
        × ((cleaned email) ≡ (record email { body_text = (cleaned email).body_text }))
        × (cleaned (cleaned email) ≡ cleaned email)
  unfolding is_html
  clean-Squeezed email e h =
      let html = cleaned-html email (blank email.body_text email.body_html e h) in
      (rw (html) (html_to_text-Squeezed email.body_html), rw (html) refl, cleaned_twice email)

normalize_subject-Squeezed : (s : Text) → Squeezed (normalize_subject s)
unfolding normalize_subject
normalize_subject-Squeezed [] = (tt, refl, refl)
normalize_subject-Squeezed (c ∷ s) =
    squeeze-Squeezed (without_prefix (c ∷ s) (reply_marker (lstrip (c ∷ s))))
