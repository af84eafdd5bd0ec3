-- ===== src/Filters/Senders.antt =====
-- The filters of src/mailflow/filters/deterministic.py on the sender: case, and how they relate.
use mailflow.Base.{
  ℕ, Text, false, List, [], ◌∷◌, ◌≡◌, refl, sym, ap, ◌∙◌, arith, lower, lower_char, has_char,
  after_last, is_empty, ◌==◌, Bool-cases, inl, inr, ◌⊎◌,
}
use mailflow.Core.Models.{Envelope, keep, drop, uncertain}
use mailflow.Core.Filtering.{FilterContext}
use mailflow.Filters.{
  BuiltInFilter, whitelist, blacklist, only_domain, only_sender, block_sender, internal_domain,
  no_personal, domain, evaluate, mem_text,
}

lower_char-lower_char : (c : ℕ) → lower_char (lower_char c) ≡ lower_char c
unfolding lower_char
lower_char-lower_char c = ground arith

at-lower_char : (c : ℕ) → (b'@' == lower_char c) ≡ (b'@' == c)
unfolding lower_char
at-lower_char c = ground arith

pub lower-lower : (s : Text) → lower (lower s) ≡ lower s
unfolding lower
lower-lower [] = refl
lower-lower (c ∷ s) = ground (arith, lower_char-lower_char c, lower-lower s)

has_char-lower : (s : Text) → has_char b'@' (lower s) ≡ has_char b'@' s
unfolding has_char lower
has_char-lower [] = refl
has_char-lower (c ∷ s) = rw (at-lower_char c, has_char-lower s)

lower-after_last : (s : Text) → lower (after_last b'@' (lower s)) ≡ lower (after_last b'@' s)
unfolding after_last lower
lower-after_last [] = refl
lower-after_last (c ∷ s) = ground (
  arith,
  at-lower_char c,
  has_char-lower s,
  lower-after_last s,
  lower-lower s,
  lower_char-lower_char c,
)

domain-lower : (a : Text) → domain (lower a) ≡ domain a
unfolding domain
domain-lower a = ground (arith, has_char-lower a, lower-after_last a)

domain_case : (a b : Text) → lower a ≡ lower b → domain a ≡ domain b
domain_case a b e = sym (domain-lower a) ∙ ap domain e ∙ domain-lower b

-- The filters that look at the sender alone, with their domains or addresses.
pub data SenderFilter : BuiltInFilter → Type 0 where
  by_whitelist : (ds : List Text) → SenderFilter (whitelist ds)
  by_blacklist : (ds : List Text) → SenderFilter (blacklist ds)
  by_only_domain : (ds : List Text) → SenderFilter (only_domain ds)
  by_only_sender : (people : List Text) → SenderFilter (only_sender people)
  by_block_sender : (people : List Text) → SenderFilter (block_sender people)
  by_internal_domain : (ds : List Text) → SenderFilter (internal_domain ds)
  by_no_personal : (ds : List Text) → SenderFilter (no_personal ds)

-- Two senders whose addresses differ in case alone get the same decision, with the same reason, from
-- every filter that looks at the sender, whatever else the emails hold.
pub evaluate_case :
    {f : BuiltInFilter} (env env' : Envelope) (ctx ctx' : FilterContext)
    → SenderFilter f
    → lower env.from_.address ≡ lower env'.from_.address
    → evaluate f env ctx ≡ evaluate f env' ctx'
unfolding evaluate
evaluate_case env env' ctx ctx' (by_whitelist ds) e =
    rw (domain_case env.from_.address env'.from_.address e)
evaluate_case env env' ctx ctx' (by_blacklist ds) e =
    rw (domain_case env.from_.address env'.from_.address e)
evaluate_case env env' ctx ctx' (by_only_domain ds) e =
    rw (domain_case env.from_.address env'.from_.address e)
evaluate_case env env' ctx ctx' (by_only_sender people) e = rw e
evaluate_case env env' ctx ctx' (by_block_sender people) e = rw e
evaluate_case env env' ctx ctx' (by_internal_domain ds) e =
    rw (domain_case env.from_.address env'.from_.address e)
evaluate_case env env' ctx ctx' (by_no_personal ds) e =
    rw (domain_case env.from_.address env'.from_.address e)

-- With the same domains, not empty, the only-domain filter drops exactly the senders that the
-- whitelist does not keep, and the blacklist drops exactly those that it does.
pub domain_filters_agree :
    (ds : List Text) (env : Envelope) (ctx : FilterContext)
    → is_empty ds ≡ false
    → let kept = (evaluate (whitelist ds) env ctx).decision in
      ((kept ≡ keep)
        × ((evaluate (blacklist ds) env ctx).decision ≡ drop)
        × ((evaluate (only_domain ds) env ctx).decision ≡ uncertain))
      ⊎ ((kept ≡ uncertain)
          × ((evaluate (blacklist ds) env ctx).decision ≡ uncertain)
          × ((evaluate (only_domain ds) env ctx).decision ≡ drop))
unfolding evaluate
domain_filters_agree ds env ctx h = elim (Bool-cases (mem_text (domain env.from_.address) ds)) [
  | inl member ↦ inl (ground arith, ground arith, ground arith)
  | inr stranger ↦ inr (ground arith, ground arith, ground arith)
]
