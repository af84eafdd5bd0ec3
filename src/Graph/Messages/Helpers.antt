-- ===== src/Graph/Messages/Helpers.antt =====
-- The helpers of src/mailflow/adapters/graph/extractor.py, which has its own `_recipient`, `_recipients` and `_dt`.
-- `datetime.fromisoformat` is a parameter, as is the `repr` of a container.
use mailflow.Base.{
  Bool, true, false, ◌==◌, ◌≡◌, refl, Text, text, Option, none, some, List, [], ◌∷◌, ◌++◌,
  if◌then◌else◌,
}
use mailflow.Exec.{Result, ok, err}
use mailflow.Exec.Results.{◌>>=◌}
use mailflow.Json.{Json, null, object, end, get_or, iterate, or_else, str_of, truthy, first_of}
use mailflow.Core.Models.{Recipient, Time}
use mailflow.Graph.Notifications.{text_field}
use mailflow.Graph.Messages.{list_field}
use mailflow.Graph.Messages

-- s.replace("Z", "+00:00")
abbrev utc_offset : Text → Text
utc_offset [] = []
utc_offset (c ∷ s) = if c == b'Z' then text "+00:00" ++ utc_offset s else c ∷ utc_offset s

module _ (repr : Json → Text) where
  abbrev recipient_of : Json → Result Recipient
  recipient_of ea = do
    name ← text_field repr ea (text "name")
    address ← text_field repr ea (text "address")
    ok (record { name = name; address = address })

  -- node.get("emailAddress", {}) if node else {}
  unfoldable pub address_of : Json → Result Json
  unfolding get_or
  address_of node =
      if truthy node then get_or node (text "emailAddress") (object end) else ok (object end)

  -- `_recipient`
  unfoldable pub recipient : Json → Result Recipient
  unfolding address_of text_field
  recipient node = address_of node >>= recipient_of

  -- A node has its place in the list where its address is not empty.
  abbrev recipient_if : Json → Bool → Result (List Recipient)
  recipient_if node false = ok []
  recipient_if node true = recipient node >>= λ r. ok (r ∷ [])

  unfoldable pub addressed : Json → Result (List Recipient)
  unfolding get_or recipient
  addressed node = do
    ea ← get_or (or_else node (object end)) (text "emailAddress") (object end)
    address ← get_or ea (text "address") null
    recipient_if node (truthy address)

  abbrev pub all_addressed : List Json → Result (List Recipient)
  all_addressed [] = ok []
  all_addressed (node ∷ nodes) =
      addressed node >>= λ rs. all_addressed nodes >>= λ rest. ok (rs ++ rest)

  -- `_recipients(data.get(key))`
  unfoldable pub recipients : Json → Text → Result (List Recipient)
  unfolding list_field iterate addressed
  recipients json key = list_field json key >>= λ nodes. iterate nodes >>= all_addressed

  abbrev some_recipient : Json → Result (Option Recipient)
  some_recipient node = recipient node >>= λ r. ok (some r)

  abbrev recipient_or_none : Json → Result (Option Recipient)
  recipient_or_none node = if truthy node then some_recipient node else ok none

  -- _recipient(data.get("sender")) if data.get("sender") else None
  unfoldable pub sender_of : Json → Result (Option Recipient)
  unfolding get_or recipient
  sender_of json = get_or json (text "sender") null >>= recipient_or_none

  -- _recipient(reply_to_list[0]) if reply_to_list else None
  unfoldable pub reply_to_of : Json → Result (Option Recipient)
  unfolding first_of recipient
  reply_to_of nodes = if truthy nodes then first_of nodes >>= some_recipient else ok none

  module _ (fromisoformat : Text → Option Time) where
    -- `_dt`
    unfoldable pub dt : Json → Option Time
    unfolding str_of
    dt value = if truthy value then fromisoformat (utc_offset (str_of repr value)) else none

    -- _dt(data.get(key))
    unfoldable pub time_field : Json → Text → Result (Option Time)
    unfolding get_or dt
    time_field json key = get_or json key null >>= λ value. ok (dt value)

  pub recipient-same : (node : Json) → recipient node ≡ Messages.recipient repr node
  unfolding recipient address_of Messages.recipient Messages.address_of
  recipient-same node = refl

  addressed-same : (node : Json) → addressed node ≡ Messages.addressed repr node
  unfolding addressed recipient address_of Messages.addressed Messages.recipient Messages.address_of
  addressed-same node = refl

  all_addressed-same : (l : List Json) → all_addressed l ≡ Messages.all_addressed repr l
  all_addressed-same [] = refl
  all_addressed-same (node ∷ nodes) = rw (addressed-same node, all_addressed-same nodes) refl

  on_nodes-same :
      (r : Result (List Json)) → (r >>= all_addressed) ≡ (r >>= Messages.all_addressed repr)
  on_nodes-same (ok l) = all_addressed-same l
  on_nodes-same (err e) = refl

  pub recipients-same :
      (json : Json) (key : Text) → recipients json key ≡ Messages.recipients repr json key
  unfolding recipients Messages.recipients
  recipients-same json key = go (list_field json key)
    where
      go :
          (r : Result Json)
          → (r >>= λ nodes. iterate nodes >>= all_addressed)
            ≡ (r >>= λ nodes. iterate nodes >>= Messages.all_addressed repr)
      go (ok nodes) = on_nodes-same (iterate nodes)
      go (err e) = refl

  pub sender_of-same : (json : Json) → sender_of json ≡ Messages.sender_of repr json
  unfolding sender_of recipient address_of Messages.sender_of Messages.recipient Messages.address_of
  sender_of-same json = refl

  pub reply_to_of-same : (nodes : Json) → reply_to_of nodes ≡ Messages.reply_to_of repr nodes
  unfolding reply_to_of recipient address_of Messages.reply_to_of Messages.recipient
      Messages.address_of
  reply_to_of-same nodes = refl

  pub time_field-same :
      (fromisoformat : Text → Option Time) (json : Json) (key : Text)
      → time_field fromisoformat json key ≡ Messages.time_field repr fromisoformat json key
  unfolding time_field dt Messages.time_field Messages.dt
  time_field-same fromisoformat json key = refl
