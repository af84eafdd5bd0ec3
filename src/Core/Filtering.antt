-- ===== src/Core/Filtering.antt =====
-- src/mailflow/core/filtering.py
use mailflow.Base.{Text, []}
use mailflow.Core.Models.{Decision}

pub record FilterContext : Type 0 where
  pub tenant : Text

pub record FilterDecision : Type 0 where
  pub decision : Decision
  pub filter_name : Text
  pub reason : Text

abbrev pub keep : Text → Text → FilterDecision
keep name reason = record { decision = Decision.keep; filter_name = name; reason = reason }

abbrev pub drop : Text → Text → FilterDecision
drop name reason = record { decision = Decision.drop; filter_name = name; reason = reason }

abbrev pub uncertain : FilterDecision
uncertain = record { decision = Decision.uncertain; filter_name = []; reason = [] }
