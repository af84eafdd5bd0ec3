-- ===== src/Stores/DeadLetters.antt =====
-- `InMemoryDeadLetterStore` of src/mailflow/stores/memory.py: a dict by record_id.
use mailflow.Base.{
  suc, ◌-◌, ℤ, pos, negsuc, length, Text, text_Eq, Option, none, some, List, [], ◌∷◌, ◌≡◌, take,
}
use mailflow.Dict
use mailflow.Dict.{Dict, NodupKeys}
use mailflow.Core.Report.{DeadLetterRecord}

abbrev pub State : Type 0
State = Dict Text DeadLetterRecord

unfoldable pub put : DeadLetterRecord → State → State
put entry records = Dict.put records entry.record_id entry

unfoldable pub all_records : State → List DeadLetterRecord
all_records [] = []
all_records ((k, r) ∷ rest) = r ∷ all_records rest

-- l[:limit]: a negative limit counts from the end.
abbrev pub slice : {A : Type 0} → ℤ → List A → List A
slice (pos n) l = take n l
slice (negsuc n) l = take (length l - suc n) l

-- records[:limit], or all of them
unfoldable pub list_pending : Option ℤ → State → List DeadLetterRecord
unfolding all_records
list_pending none records = all_records records
list_pending (some limit) records = slice limit (all_records records)

unfoldable pub delete : Text → State → State
delete record_id records = Dict.remove records record_id

-- Every record stands under its own id, and no id is there twice.
abbrev pub IsKeyed : State → Type 0
IsKeyed [] = Unit
IsKeyed ((k, r) ∷ rest) = (r.record_id ≡ k) × (Dict.get rest k ≡ none) × IsKeyed rest
