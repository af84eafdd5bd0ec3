-- ===== src/Base/Distinct.antt =====
-- Lists to which an entry is added only if it is not there: Python's `if x not in l: l.append(x)`.
use Prim.Native.Nat.{ℕ, ◌+◌}
use mathlib.Core.Path.{◌≡◌, refl, ap, sym, ◌∙◌}
use mathlib.Core.Bool.{Bool, true, false, ◌||◌}
use mathlib.Core.List.{List, [], ◌∷◌, ◌++◌}
use native.Mathlib.Omega.{arith}
use mailflow.Base.Tests.{if◌then◌else◌, Eq}
use mailflow.Base.Lists.{any, count}

module _ {A : Type 0} (p : A → Bool) where
  pub any-append : (xs ys : List A) → any p (xs ++ ys) ≡ (any p xs || any p ys)
  any-append [] ys = refl
  any-append (x ∷ xs) ys = ground (arith, any-append xs ys)

  count-append : (xs ys : List A) → count p (xs ++ ys) ≡ count p xs + count p ys
  count-append [] ys = omega arith
  count-append (x ∷ xs) ys = ground (arith, count-append xs ys)

module _ {A : Type 0} ⦃e : Eq A⦄ where
  -- x in l
  abbrev pub has : A → List A → Bool
  has a l = any (e.beq a) l

  abbrev pub add_new : List A → A → List A
  add_new l a = if has a l then l else l ++ (a ∷ [])

  abbrev pub add_all : List A → List A → List A
  add_all seen [] = seen
  add_all seen (a ∷ l) = add_all (add_new seen a) l

  -- Whether an entry is in a list, and that it is there at most once.
  abbrev pub Held : A → Bool → List A → Type 0
  Held t b l = (has t l ≡ b) × (count (e.beq t) l ≡ (if b then 1 else 0))

  add_new-Held :
      (t : A) (b : Bool) (l : List A) (s : A) → Held t b l → Held t (b || e.beq t s) (add_new l s)
  add_new-Held t b l s h = go (has s l) refl (e.beq t s) refl
    where
      same : e.beq t s ≡ true → has t l ≡ has s l
      same u = ap (λ r. has r l) ((e.beq_iff t s).0 u)

      go :
          (i : Bool)
          → has s l ≡ i
          → (d : Bool) → e.beq t s ≡ d
          → Held t (b || d) (if i then l else l ++ (s ∷ []))
      go true p true q = held_of (sym h.0 ∙ (same q ∙ p)) h
        where
          held_of : b ≡ true → Held t b l → Held t (b || true) l
          held_of u v = rw u (rw u at v)
      go true p false q = or_false b h
        where
          or_false : (b : Bool) → Held t b l → Held t (b || false) l
          or_false true v = v
          or_false false v = v
      go false p true q = (
        any-append (e.beq t) l (s ∷ []) ∙ rw (h.0, q) refl,
        count-append (e.beq t) l (s ∷ []) ∙ rw (h.1, q) (one b (sym h.0 ∙ (same q ∙ p))),
      )
        where
          one :
              (b : Bool)
              → b ≡ false
              → ◌≡◌ {A = ℕ} ((if b then 1 else 0) + (1 + 0)) (if b || true then 1 else 0)
          one b u = ground arith
      go false p false q = (
        any-append (e.beq t) l (s ∷ []) ∙ rw (h.0, q) refl,
        count-append (e.beq t) l (s ∷ []) ∙ rw (h.1, q) (none_more b),
      )
        where
          none_more :
              (b : Bool)
              → ◌≡◌ {A = ℕ} ((if b then 1 else 0) + (0 + 0)) (if b || false then 1 else 0)
          none_more b = ground arith

  pub add_all-Held :
      (t : A) (b : Bool) (seen l : List A) → Held t b seen → Held t (b || has t l) (add_all seen l)
  add_all-Held t b seen [] h = or_false b h
    where
      or_false : (b : Bool) → Held t b seen → Held t (b || false) seen
      or_false true v = v
      or_false false v = v
  add_all-Held t b seen (s ∷ l) h =
      rw (sym (or_assoc b (e.beq t s) (has t l)))
        (add_all-Held t (b || e.beq t s) (add_new seen s) l (add_new-Held t b seen s h))
    where
      or_assoc : (a b c : Bool) → ((a || b) || c) ≡ (a || (b || c))
      or_assoc a b c = ground arith

  -- What is added once if it is there: each entry of the list is in what comes out, once.
  pub add_all-once :
      (t : A) (l : List A) → count (e.beq t) (add_all [] l) ≡ (if has t l then 1 else 0)
  add_all-once t l = (add_all-Held t false [] l (refl, refl)).1

  pub add_all-append : (seen a b : List A) → add_all seen (a ++ b) ≡ add_all (add_all seen a) b
  add_all-append seen [] b = refl
  add_all-append seen (x ∷ a) b = add_all-append (add_new seen x) a b
