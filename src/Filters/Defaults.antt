-- ===== src/Filters/Defaults.antt =====
-- The built-in filters of src/mailflow/filters/deterministic.py without configuration.
use mailflow.Base.{none, [], ◌≡◌, refl}
use mailflow.Core.Models.{Envelope}
use mailflow.Core.Filtering.{FilterContext, uncertain}
use mailflow.Filters.{
  BuiltInFilter, subject, evaluate, new_whitelist, new_blacklist, new_only_domain, new_only_sender,
  new_block_sender, new_internal_domain, new_to, new_cc, subject_match, mem_text,
}

-- A filter that matches on configured domains, addresses or patterns.
pub data Configured : Type 0 where
  whitelist blacklist only_domain only_sender block_sender internal_domain subjects to cc :
      Configured

-- Its object with the empty configuration.
abbrev pub unconfigured : Configured → BuiltInFilter
unconfigured Configured.whitelist = new_whitelist []
unconfigured Configured.blacklist = new_blacklist []
unconfigured Configured.only_domain = new_only_domain []
unconfigured Configured.only_sender = new_only_sender []
unconfigured Configured.block_sender = new_block_sender []
unconfigured Configured.internal_domain = new_internal_domain []
unconfigured Configured.subjects = subject []
unconfigured Configured.to = new_to none none
unconfigured Configured.cc = new_cc none none

-- With nothing configured every such filter leaves every email undecided: none drops and none keeps.
pub unconfigured-uncertain :
    (c : Configured) (env : Envelope) (ctx : FilterContext)
    → evaluate (unconfigured c) env ctx ≡ uncertain
unfolding evaluate new_whitelist new_blacklist new_only_domain new_only_sender new_block_sender
    new_internal_domain new_to new_cc subject_match mem_text
unconfigured-uncertain Configured.whitelist env ctx = refl
unconfigured-uncertain Configured.blacklist env ctx = refl
unconfigured-uncertain Configured.only_domain env ctx = refl
unconfigured-uncertain Configured.only_sender env ctx = refl
unconfigured-uncertain Configured.block_sender env ctx = refl
unconfigured-uncertain Configured.internal_domain env ctx = refl
unconfigured-uncertain Configured.subjects env ctx = refl
unconfigured-uncertain Configured.to env ctx = refl
unconfigured-uncertain Configured.cc env ctx = refl
