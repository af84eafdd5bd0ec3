-- ===== src/Exec/Results.antt =====
-- Code that raises and keeps no state of its own.
use mailflow.Base.{List, [], ◌∷◌, ◌≡◌, refl, ◌⊎◌, inl, inr}
use mailflow.Exec.{Exc, Result, ok, err}

infixl 5 ◌>>=◌
abbrev pub ◌>>=◌ : {A B : Type 0} → Result A → (A → Result B) → Result B
ok a >>= f = f a
err e >>= f = err e

-- A `try` around code that keeps no state: what it returns, or what the handler makes of it.
abbrev pub rescue : {A : Type 0} → Result A → (Exc → Result A) → Result A
rescue (ok a) h = ok a
rescue (err e) h = h e

-- [f(a) for a in l], where f may raise.
abbrev pub map_results : {A B : Type 0} → (A → Result B) → List A → Result (List B)
map_results f [] = ok []
map_results f (a ∷ l) = f a >>= λ b. map_results f l >>= λ bs. ok (b ∷ bs)

-- What a bind that returns has bound.
pub ok_of_bind :
    {A B : Type 0} (m : Result A) (f : A → Result B) (b : B)
    → (m >>= f) ≡ ok b
    → (a : A) × (m ≡ ok a) × (f a ≡ ok b)
ok_of_bind (ok a) f b h = (a, refl, h)
ok_of_bind (err e) f b h = cc

pub Result-cases : {A : Type 0} (m : Result A) → ((a : A) × (m ≡ ok a)) ⊎ ((e : Exc) × (m ≡ err e))
Result-cases (ok a) = inl (a, refl)
Result-cases (err e) = inr (e, refl)
