-- ===== src/Ports/Bookmarks.antt =====
-- What any cursor store of src/mailflow/core/ports.py promises over many commits, by one writer or by
-- several: a commit is one step, so the commits of several writers are a sequence of steps.
use mailflow.Base.{
  ◌≤ℤ◌, Text, text_eq_iff, Option, none, some, List, [], ◌∷◌, ◌≡◌, sym, ap, subst, ◌∙◌, Bool-cases,
  inl, inr, eq_of_parts, arith, if◌then◌else◌,
}
use mailflow.Core.Models.{StreamRef, stream_key, Cursor}
use mailflow.Ports.{CursorStore, ahead, same_bookmark}

-- A commit that somebody makes.
pub record Commit : Type 0 where
  pub tenant : Text
  pub stream : StreamRef
  pub cursor : Cursor

-- The second bookmark is not behind the first.
abbrev pub NotBehind : Option Cursor → Option Cursor → Type 0
NotBehind none d = Unit
NotBehind (some c) none = ⊥
NotBehind (some c) (some d) = c.order ≤ℤ d.order

NotBehind-trans : (a b c : Option Cursor) → NotBehind a b → NotBehind b c → NotBehind a c
NotBehind-trans none b c h k = tt
NotBehind-trans (some a) none c h k = absurd h
NotBehind-trans (some a) (some b) none h k = absurd k
NotBehind-trans (some a) (some b) (some c) h k = omega arith

NotBehind-refl : (a : Option Cursor) → NotBehind a a
NotBehind-refl none = tt
NotBehind-refl (some a) = omega arith

ahead-NotBehind : (a : Option Cursor) (c : Cursor) → NotBehind a (some (ahead a c))
ahead-NotBehind none c = tt
ahead-NotBehind (some a) c = ground arith

abbrev pub SameOrder : Option Cursor → Option Cursor → Type 0
SameOrder none none = Unit
SameOrder none (some d) = ⊥
SameOrder (some c) none = ⊥
SameOrder (some c) (some d) = c.order ≡ d.order

ahead_comm :
    (o : Option Cursor) (a b : Cursor)
    → (ahead (some (ahead o a)) b).order ≡ (ahead (some (ahead o b)) a).order
ahead_comm none a b = ground (arith, eq_of_parts a.order b.order)
ahead_comm (some c) a b =
    ground
      (arith, eq_of_parts a.order b.order, eq_of_parts a.order c.order, eq_of_parts b.order c.order)

module _ (K : CursorStore) where
  unfoldable pub apply_commits : List Commit → K.State → K.State
  apply_commits [] s = s
  apply_commits (c ∷ cs) s = apply_commits cs (K.commit_if_ahead c.tenant c.stream c.cursor s).1

  commit-NotBehind :
      (t : Text) (r : StreamRef) (c : Commit) (s : K.State)
      → NotBehind (K.get t r s) (K.get t r (K.commit_if_ahead c.tenant c.stream c.cursor s).1)
  commit-NotBehind t r c s = elim (Bool-cases (same_bookmark c.tenant c.stream t r)) [
    | inl same ↦
        subst (NotBehind (K.get t r s))
          (sym (
            K.get-commit c.tenant c.stream c.cursor s t r
            ∙ ap (λ b. if b then some (ahead (K.get c.tenant c.stream s) c.cursor) else K.get t r s)
                same))
          (subst (λ a. NotBehind a (some (ahead (K.get c.tenant c.stream s) c.cursor)))
            (K.get-same c.tenant c.stream t r s same)
            (ahead-NotBehind (K.get c.tenant c.stream s) c.cursor))
    | inr other ↦
        subst (NotBehind (K.get t r s))
          (sym (
            K.get-commit c.tenant c.stream c.cursor s t r
            ∙ ap (λ b. if b then some (ahead (K.get c.tenant c.stream s) c.cursor) else K.get t r s)
                other))
          (NotBehind-refl (K.get t r s))
  ]

  -- Whoever commits, to whatever streams and in whatever order, no bookmark ever goes back or is lost.
  pub bookmarks_forward :
      (cs : List Commit) (t : Text) (r : StreamRef) (s : K.State)
      → NotBehind (K.get t r s) (K.get t r (apply_commits cs s))
  unfolding apply_commits
  bookmarks_forward [] t r s = NotBehind-refl (K.get t r s)
  bookmarks_forward (c ∷ cs) t r s =
      let s1 = (K.commit_if_ahead c.tenant c.stream c.cursor s).1 in
      NotBehind-trans (K.get t r s) (K.get t r s1) (K.get t r (apply_commits cs s1))
        (commit-NotBehind t r c s) (bookmarks_forward cs t r s1)

  -- Two commits to one stream leave a bookmark of the same order, whichever comes first.
  pub commits_order_comm :
      (t : Text) (r : StreamRef) (a b : Cursor) (s : K.State)
      → SameOrder
          (K.get t r (K.commit_if_ahead t r b (K.commit_if_ahead t r a s).1).1)
          (K.get t r (K.commit_if_ahead t r a (K.commit_if_ahead t r b s).1).1)
  commits_order_comm t r a b s = ground (
    arith,
    text_eq_iff t t,
    text_eq_iff (stream_key r) (stream_key r),
    K.get-commit t r a s t r,
    K.get-commit t r b s t r,
    K.get-commit t r b (K.commit_if_ahead t r a s).1 t r,
    K.get-commit t r a (K.commit_if_ahead t r b s).1 t r,
    ahead_comm (K.get t r s) a b,
  )
