-- ===== src/Stores/SqliteDedupe/Purge.antt =====
-- `purge_expired` of the two dedupe stores of src/mailflow/stores: the DELETE of the one, and the loop
-- over the keys of the other.
use mailflow.Base.{
  Text, text_eq, text_Eq, text_eq_iff, false, ◌≡◌, refl, arith, none, List, [], ◌∷◌, length,
}
use mailflow.Dict
use mailflow.Dict.{Dict, NodupKeys}
use mailflow.Core.Models.{Time}
use mailflow.Stores.Claim.{Claim}
use mailflow.Stores.MemoryDedupe.{expired_keys, delete_keys}
use mailflow.Stores.SqliteDedupe.{delete_expired}

abbrev Absent : Text → List Text → Type 0
Absent k [] = Unit
Absent k (j ∷ js) = (text_eq k j ≡ false) × Absent k js

expired_keys-Absent :
    (now : Time) (k : Text) (d : Dict Text Claim)
    → Dict.get d k ≡ none
    → Absent k (expired_keys now d)
unfolding Dict.get expired_keys
expired_keys-Absent now k [] h = tt
expired_keys-Absent now k ((j, c) ∷ d) h =
    ground (arith, expired_keys-Absent now k d, text_eq_iff k j, text_eq_iff j k)

delete_keys-skip :
    (k : Text) (c : Claim) (ks : List Text) (d : Dict Text Claim)
    → Absent k ks
    → delete_keys ks ((k, c) ∷ d) ≡ (k, c) ∷ delete_keys ks d
unfolding delete_keys Dict.remove
delete_keys-skip k c [] d h = refl
delete_keys-skip k c (j ∷ ks) d h =
    ground (arith, delete_keys-skip k c ks (Dict.remove d j) h.1, h.0)

delete_keys-head :
    (k : Text) (c : Claim) (ks : List Text) (d : Dict Text Claim)
    → delete_keys (k ∷ ks) ((k, c) ∷ d) ≡ delete_keys ks d
unfolding delete_keys Dict.remove
delete_keys-head k c ks d = ground (arith, text_eq_iff k k)

-- On the same claims, no key twice, the two stores purge the same claims and report the same number.
pub purges_agree :
    (now : Time) (d : Dict Text Claim)
    → NodupKeys d
    → (length (expired_keys now d), delete_keys (expired_keys now d) d) ≡ delete_expired now d
unfolding expired_keys delete_expired delete_keys
purges_agree now [] h = refl
purges_agree now ((k, c) ∷ d) h = ground (
  arith,
  purges_agree now d h.1,
  delete_keys-skip k c (expired_keys now d) d (expired_keys-Absent now k d h.0),
  delete_keys-head k c (expired_keys now d) d,
)
