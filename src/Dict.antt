-- ===== src/Dict.antt =====
-- A Python dict: its entries in insertion order. Assignment to a key that is present keeps its place.
use mailflow.Base.{◌≡◌, refl, Option, none, some, List, [], ◌∷◌, arith, Eq, if◌then◌else◌}

abbrev pub Dict {ℓ κ} : Type ℓ → Type κ → Type (ℓ ⊔ κ)
Dict K V = List (K × V)

abbrev pub or_default {κ} : {V : Type κ} → V → Option V → V
or_default v none = v
or_default v (some w) = w

abbrev pub on_some {κ} : {V : Type κ} → (V → V) → Option V → Option V
on_some f none = none
on_some f (some w) = some (f w)

module _ {ℓ κ} {K : Type ℓ} {V : Type κ} ⦃e : Eq K⦄ where
  -- d.get(k)
  unfoldable pub get : Dict K V → K → Option V
  get [] k = none
  get ((j, v) ∷ d) k = if e.beq j k then some v else get d k

  -- d[k] = v
  unfoldable pub put : Dict K V → K → V → Dict K V
  put [] k v = (k, v) ∷ []
  put ((j, w) ∷ d) k v = if e.beq j k then (j, v) ∷ d else (j, w) ∷ put d k v

  -- del d[k], d.pop(k, None)
  unfoldable pub remove : Dict K V → K → Dict K V
  remove [] k = []
  remove ((j, w) ∷ d) k = if e.beq j k then d else (j, w) ∷ remove d k

  pub get-put :
      (d : Dict K V) (k j : K) (v : V) → get (put d k v) j ≡ (if e.beq k j then some v else get d j)
  unfolding get put
  get-put [] k j v = refl
  get-put ((i, w) ∷ d) k j v =
      ground (arith, get-put d k j v, e.beq_iff i k, e.beq_iff i j, e.beq_iff k j)

  -- d.setdefault(k, v), INSERT OR IGNORE
  unfoldable pub put_new : Dict K V → K → V → Dict K V
  put_new [] k v = (k, v) ∷ []
  put_new ((j, w) ∷ d) k v = if e.beq j k then (j, w) ∷ d else (j, w) ∷ put_new d k v

  -- UPDATE .. WHERE key = k, or a write to a field of d[k]
  unfoldable pub adjust : Dict K V → K → (V → V) → Dict K V
  adjust [] k f = []
  adjust ((j, w) ∷ d) k f = if e.beq j k then (j, f w) ∷ d else (j, w) ∷ adjust d k f

  pub get-put_new :
      (d : Dict K V) (k j : K) (v : V)
      → get (put_new d k v) j ≡ (if e.beq k j then some (or_default v (get d j)) else get d j)
  unfolding get put_new
  get-put_new [] k j v = ground arith
  get-put_new ((i, w) ∷ d) k j v =
      ground (arith, get-put_new d k j v, e.beq_iff i k, e.beq_iff i j, e.beq_iff k j)

  pub get-adjust :
      (d : Dict K V) (k j : K) (f : V → V)
      → get (adjust d k f) j ≡ (if e.beq k j then on_some f (get d j) else get d j)
  unfolding get adjust
  get-adjust [] k j f = ground arith
  get-adjust ((i, w) ∷ d) k j f =
      ground (arith, get-adjust d k j f, e.beq_iff i k, e.beq_iff i j, e.beq_iff k j)

  -- No key twice, as in any dict.
  abbrev pub NodupKeys : Dict K V → Type κ
  NodupKeys [] = Unit {κ}
  NodupKeys ((j, w) ∷ d) = (get d j ≡ none) × NodupKeys d
