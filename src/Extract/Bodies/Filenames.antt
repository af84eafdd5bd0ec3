-- ===== src/Extract/Bodies/Filenames.antt =====
-- What `_safe_filename` of src/mailflow/extract/mime.py lets through.
use mailflow.Base.{
  ℕ, zero, suc, true, false, Text, text, text_eq, is_empty, lstrip, rstrip, strip, has_char,
  after_last, Option, none, some, [], ◌∷◌, ◌≡◌, ◌≢◌, refl, Bool-cases, inl, inr, arith,
}
use mailflow.Extract.Clean.Spaces.{keep_or_drop, rstrip-cons}
use mailflow.Extract.Bodies.{safe_filename, leaf_of, drop_nul, is_traversal}

abbrev Without : ℕ → Text → Type 0
Without c s = has_char c s ≡ false

after_last-Without : (c : ℕ) (s : Text) → Without c (after_last c s)
unfolding after_last has_char
after_last-Without c [] = refl
after_last-Without c (d ∷ s) = ground (arith, after_last-Without c s)

-- A text whose characters are all among those of another.
Without-after_last : (c d : ℕ) (s : Text) → Without c s → Without c (after_last d s)
unfolding after_last has_char
Without-after_last c d [] h = refl
Without-after_last c d (e ∷ s) h = ground (arith, Without-after_last c d s, h)

Without-lstrip : (c : ℕ) (s : Text) → Without c s → Without c (lstrip s)
unfolding lstrip has_char
Without-lstrip c [] h = refl
Without-lstrip c (d ∷ s) h = ground (arith, Without-lstrip c s, h)

Without-drop_nul : (c : ℕ) (s : Text) → Without c s → Without c (drop_nul s)
unfolding has_char
Without-drop_nul c [] h = refl
Without-drop_nul c (zero ∷ s) h = Without-drop_nul c s (ground (arith, h))
Without-drop_nul c (suc d ∷ s) h = h

Without-keep :
    (c d : ℕ) (r : Text) → Without c (d ∷ []) → Without c r → Without c (keep_or_drop d r)
unfolding keep_or_drop has_char
Without-keep c d [] h k = ground (arith, h)
Without-keep c d (e ∷ r) h k = ground (arith, h, k)

Without-rstrip : (c : ℕ) (s : Text) → Without c s → Without c (rstrip s)
unfolding rstrip has_char
Without-rstrip c [] h = refl
Without-rstrip c (d ∷ s) h =
    rw (rstrip-cons d s)
      (Without-keep c d (rstrip s) (ground (arith, h)) (Without-rstrip c s (ground (arith, h))))

Without-leaf :
    (c : ℕ) (name : Text)
    → Without c (after_last b'\\' (after_last b'/' name))
    → Without c (leaf_of name)
unfolding leaf_of strip
Without-leaf c name h =
    Without-drop_nul c _
      (Without-rstrip c _ (Without-lstrip c (after_last b'\\' (after_last b'/' name)) h))

-- A file name without a separator, which is no name of a directory.
abbrev pub Leaf : Text → Type 0
Leaf s = (has_char b'/' s ≡ false) × (has_char b'\\' s ≡ false) × (s ≢ text ".") × (s ≢ text "..")

named : (s t : Text) → is_traversal s ≡ false → is_traversal t ≡ true → s ≢ t
named s t h k e = absurd (apart (rw (← e) h) k)
  where
    apart : is_traversal t ≡ false → is_traversal t ≡ true → ⊥
    apart h k = cc

dots : (is_traversal (text ".") ≡ true) × (is_traversal (text "..") ≡ true)
unfolding text_eq
dots = (refl, refl)

empty-Leaf : Leaf []
unfolding has_char
empty-Leaf = (refl, refl, (λ h. cc), (λ h. cc))

-- The file name of an attachment has no slash and no backslash in it, and is neither "." nor "..", whatever the
-- message says it is.
pub safe_filename-Leaf : (name : Option Text) → Leaf (safe_filename name)
unfolding safe_filename has_char
safe_filename-Leaf none = empty-Leaf
safe_filename-Leaf (some name) = elim (Bool-cases (is_empty name)) [
  | inl q ↦ rw (q) empty-Leaf
  | inr q ↦ rw (q) (elim (Bool-cases (is_traversal (leaf_of name))) [
    | inl t ↦ rw (t) empty-Leaf
    | inr t ↦ rw (t) (
      Without-leaf b'/' name
          (Without-after_last b'/' b'\\' (after_last b'/' name) (after_last-Without b'/' name)),
      Without-leaf b'\\' name (after_last-Without b'\\' (after_last b'/' name)),
      named (leaf_of name) (text ".") t dots.0,
      named (leaf_of name) (text "..") t dots.1,
    )
  ])
]
