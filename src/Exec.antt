-- ===== src/Exec.antt =====
-- Code that raises: a result, and an action on a state. What was written before a raise stays
-- written, so the state comes back beside the exception too. `Exc` is the hierarchy of
-- src/mailflow/core/errors.py as the handlers of the program tell it apart.
pub mod Results
use mailflow.Base.{Text}

-- Which `except` clause of the pipeline catches the exception.
pub data ErrorKind : Type 0 where
  permanent auth transient unknown : ErrorKind

-- `type(exc).__name__` and `str(exc)`.
pub record Exc : Type 0 where
  pub kind : ErrorKind
  pub class_name : Text
  pub message : Text

pub data Result (A : Type 0) : Type 0 where
  ok : A → Result A
  err : Exc → Result A

abbrev pub Exec : Type 0 → Type 0 → Type 0
Exec S A = S → Result A × S

module _ {S A : Type 0} where
  abbrev pub pure : A → Exec S A
  pure a s = (ok a, s)

  abbrev pub raise : Exc → Exec S A
  raise e s = (err e, s)

  abbrev pub gets : (S → A) → Exec S A
  gets f s = (ok (f s), s)

  -- try: m except Exception as e: handler e
  abbrev pub handle : Result A × S → (Exc → Exec S A) → Result A × S
  handle (ok a, s) h = (ok a, s)
  handle (err e, s) h = h e s

-- The rest of a block, from how its first step ended.
abbrev pub continue : {S A B : Type 0} → Result A × S → (A → Exec S B) → Result B × S
continue (ok a, s) f = f a s
continue (err e, s) f = (err e, s)

infixl 5 ◌>>=◌ ◌>>◌
abbrev pub ◌>>=◌ : {S A B : Type 0} → Exec S A → (A → Exec S B) → Exec S B
◌>>=◌ m f s = continue (m s) f

abbrev pub ◌>>◌ : {S A B : Type 0} → Exec S A → Exec S B → Exec S B
m >> k = m >>= λ _. k

abbrev pub modify : {S : Type 0} → (S → S) → Exec S (Unit {0})
modify f s = (ok tt, f s)
