-- ===== src/Extract/Clean/Markers.antt =====
-- The fuel for the markers in front of a subject (src/mailflow/extract/clean.py) is enough.
use mailflow.Base.{
  ℕ, zero, suc, ◌≤◌, ◌<◌, ◌==◌, Text, text, lstrip, drop, length, Option, none, some, [], ◌∷◌, ◌≡◌,
  refl, arith, Bool-cases, inl, inr,
}
use mailflow.Graph.Resources.{first_of_two}
use mailflow.Extract.Clean.{reply_marker, drop_markers, after_colon, marker, match_literal}

length-lstrip : (s : Text) → length (lstrip s) ≤ length s
unfolding lstrip
length-lstrip [] = omega arith
length-lstrip (c ∷ s) = ground (arith, length-lstrip s)

length-drop : (n : ℕ) (s : Text) → length (drop n s) ≤ length s
length-drop zero s = omega arith
length-drop (suc n) [] = omega arith
length-drop (suc n) (c ∷ s) = ground (arith, length-drop n s)

-- What is left is shorter, where something was found.
abbrev Shorter : ℕ → Option Text → Type 0
Shorter n none = Unit
Shorter n (some rest) = length rest < n

after_colon-Shorter : (n : ℕ) (s : Text) → length s ≤ n → Shorter n (after_colon s)
after_colon-Shorter n [] h = tt
after_colon-Shorter n (c ∷ s) h = elim (Bool-cases (c == b':')) [
  | inl q ↦ rw (q) (ground (arith, length-lstrip s, h))
  | inr q ↦ rw (q) tt
]

marker-Shorter : (name s : Text) (o : Option ℕ) → Shorter (length s) (marker name s o)
marker-Shorter name s none = tt
marker-Shorter name s (some n) =
    after_colon-Shorter (length s) (lstrip (drop n s))
      (ground (arith, length-lstrip (drop n s), length-drop n s))

first-Shorter :
    (n : ℕ) (a b : Option Text) → Shorter n a → Shorter n b → Shorter n (first_of_two a b)
first-Shorter n none b h k = k
first-Shorter n (some rest) b h k = h

reply_marker-Shorter : (s : Text) → Shorter (length s) (reply_marker s)
unfolding reply_marker
reply_marker-Shorter s =
    first-Shorter (length s) (marker (text "re") s (match_literal (text "re") s)) _
      (marker-Shorter (text "re") s (match_literal (text "re") s))
      (first-Shorter (length s) (marker (text "fwd") s (match_literal (text "fwd") s)) _
        (marker-Shorter (text "fwd") s (match_literal (text "fwd") s))
        (marker-Shorter (text "fw") s (match_literal (text "fw") s)))

-- With fuel for every character, no marker is left in front.
drop_markers-none :
    (fuel : ℕ) (s : Text) → length s ≤ fuel → reply_marker (drop_markers fuel s) ≡ none
unfolding drop_markers
drop_markers-none zero [] h = refl
drop_markers-none zero (c ∷ s) h = absurd (omega arith)
drop_markers-none (suc fuel) s h =
    go (reply_marker s) refl (reply_marker-Shorter s)
      (λ rest. λ k. drop_markers-none fuel rest (ground (arith, h, k)))
  where
    go :
        (o : Option Text)
        → reply_marker s ≡ o
        → Shorter (length s) o
        → ((rest : Text) → length rest < length s → reply_marker (drop_markers fuel rest) ≡ none)
        → reply_marker (drop_markers (suc fuel) s) ≡ none
    go none q k ih = rw (q) q
    go (some rest) q k ih = rw (q) (ih rest k)
