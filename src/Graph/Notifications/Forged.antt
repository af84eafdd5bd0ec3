-- ===== src/Graph/Notifications/Forged.antt =====
-- What forged items do to the parsers of src/mailflow/adapters/graph/notifications.py.
use mailflow.Base.{
  text_Eq, is_ascii, true, false, Text, text, text_eq, text_eq_iff, Option, none, some, List, [],
  ◌∷◌, ◌++◌, ◌≡◌, ◌≢◌, refl, ap, Bool, Bool-cases, inl, inr,
}
use mailflow.Exec.{Exc, Result, ok, err}
use mailflow.Exec.Results.{◌>>=◌}
use mailflow.Json.{
  Json, Fields, str, str_of, array, object, end, field, elements, items_of, entries, get_or,
  iterate,
}
use mailflow.Dict
use mailflow.Dict.{or_default}
use mailflow.Graph.Notifications.{
  Notification, compare_digest, not_ascii, text_field, parse_item, if_message, collect,
  collect_value, parse_notification_payload, keep,
}

elements-items_of : (l : List Json) → elements (items_of l) ≡ l
elements-items_of [] = refl
elements-items_of (j ∷ l) = ap (◌∷◌ j) (elements-items_of l)

-- A body with these items.
abbrev pub payload : List Json → Json
payload l = object (field (text "value") (array (items_of l)) end)

collect_value-payload :
    {A : Type 0} (f : Json → Result (Option A)) (l : List Json)
    → collect_value f (payload l) ≡ collect f l
unfolding collect_value get_or Dict.get iterate text_eq
collect_value-payload f l = ap (collect f) (elements-items_of l)

collect-skip :
    {A : Type 0} (f : Json → Result (Option A)) (xs ys : List Json) (item : Json)
    → f item ≡ ok none
    → collect f (xs ++ (item ∷ ys)) ≡ collect f (xs ++ ys)
unfolding collect
collect-skip f [] ys item h = rw h (same (collect f ys))
  where
    same : {B : Type 0} (r : Result (List B)) → (r >>= λ l. ok l) ≡ r
    same (ok l) = refl
    same (err e) = refl
collect-skip {A} f (x ∷ xs) ys item h =
    ap (λ r. f x >>= λ o. r >>= λ (l : List A). ok (keep o l)) (collect-skip f xs ys item h)

-- An object whose client state is in ASCII, as the expected one is, and another.
pub record Forged (repr : Json → Text) (expected : Text) (members : Fields) : Type 0 where
  pub claimed : Text
  pub client_state : text_field repr (object members) (text "clientState") ≡ ok claimed
  pub claimed_ascii : is_ascii claimed ≡ true
  pub expected_ascii : is_ascii expected ≡ true
  pub different : claimed ≢ expected

module _ (repr : Json → Text) (expected : Text) where
  differs : (a b : Text) → a ≢ b → text_eq a b ≡ false
  differs a b n = elim (Bool-cases (text_eq a b)) [
    | inl same ↦ absurd (n ((text_eq_iff a b).0 same))
    | inr other ↦ other
  ]

  if_message-Forged :
      (members : Fields) (b : Bool)
      → Forged repr expected members
      → if_message repr expected (object members) b ≡ ok none
  unfolding compare_digest
  if_message-Forged members true h = refl
  if_message-Forged members false h =
      rw (h.client_state, h.claimed_ascii, h.expected_ascii, differs h.claimed expected h.different)

  parse_item-Forged :
      (members : Fields)
      → Forged repr expected members
      → parse_item repr expected (object members) ≡ ok none
  unfolding parse_item get_or
  parse_item-Forged members h =
      if_message-Forged members
        (text_eq
          (str_of repr (or_default Json.null (Dict.get (entries members) (text "subscriptionId"))))
          (text "NA"))
        h

  if_message-not_ascii :
      (members : Fields) (claimed : Text)
      → text_field repr (object members) (text "clientState") ≡ ok claimed
      → is_ascii claimed ≡ false
      → if_message repr expected (object members) false ≡ err not_ascii
  unfolding compare_digest
  if_message-not_ascii members claimed h k = rw (h, k)

module _ (repr : Json → Text) (loads : Text → Option Json) (expected : Text) where
  -- A forged item of a notification payload is dropped: wherever it stands among the items, the payload
  -- gives what it gives without the item, be it notifications or an exception. Forged is an object
  -- whose client state is not the expected one, where both are in ASCII.
  pub parse_notification_payload-Forged :
      (body body' : Text) (xs ys : List Json) (members : Fields)
      → loads body ≡ some (payload (xs ++ (object members ∷ ys)))
      → loads body' ≡ some (payload (xs ++ ys))
      → Forged repr expected members
      → parse_notification_payload repr loads body expected
        ≡ parse_notification_payload repr loads body' expected
  unfolding parse_notification_payload
  parse_notification_payload-Forged body body' xs ys members p q h =
      rw
        (
          p,
          q,
          collect_value-payload (parse_item repr expected) (xs ++ (object members ∷ ys)),
          collect_value-payload (parse_item repr expected) (xs ++ ys),
        )
        (collect-skip (parse_item repr expected) xs ys (object members)
          (parse_item-Forged repr expected members h))

  collect-raises :
      (f : Json → Result (Option Notification)) (xs ys : List Json) (item : Json)
      (l : List Notification) (e : Exc)
      → collect f xs ≡ ok l
      → f item ≡ err e
      → collect f (xs ++ (item ∷ ys)) ≡ err e
  unfolding collect
  collect-raises f [] ys item l e h k = rw k
  collect-raises f (x ∷ xs) ys item l e h k =
      go (f x) (collect f xs) h (λ m p. collect-raises f xs ys item m e p k)
    where
      go :
          (r : Result (Option Notification)) (s : Result (List Notification))
          → (r >>= λ o. s >>= λ t. ok (keep o t)) ≡ ok l
          → ((m : List Notification) → s ≡ ok m → collect f (xs ++ (item ∷ ys)) ≡ err e)
          → (r >>= λ o. collect f (xs ++ (item ∷ ys)) >>= λ t. ok (keep o t)) ≡ err e
      go (ok o) (ok m) p ih = rw (ih m refl)
      go (ok o) (err z) p ih = cc
      go (err z) s p ih = cc

  -- One item whose client state has a character outside ASCII makes the whole payload raise
  -- `TypeError`, whatever the items after it are, if it names no validation event and the items before
  -- it do not raise: the comparison refuses such a text, and the parser does not catch that.
  pub parse_notification_payload-not_ascii :
      (body : Text) (xs ys : List Json) (members : Fields) (subscription claimed : Text)
      (l : List Notification)
      → loads body ≡ some (payload (xs ++ (object members ∷ ys)))
      → collect (parse_item repr expected) xs ≡ ok l
      → text_field repr (object members) (text "clientState") ≡ ok claimed
      → is_ascii claimed ≡ false
      → Dict.get (entries members) (text "subscriptionId") ≡ some (str subscription)
      → subscription ≢ text "NA"
      → parse_notification_payload repr loads body expected ≡ err not_ascii
  unfolding parse_notification_payload parse_item get_or str_of
  parse_notification_payload-not_ascii body xs ys members subscription claimed l p before h k m n =
      rw (p, collect_value-payload (parse_item repr expected) (xs ++ (object members ∷ ys)))
        (collect-raises (parse_item repr expected) xs ys (object members) l not_ascii before
          refused)
    where
      refused : parse_item repr expected (object members) ≡ err not_ascii
      refused =
          rw (m, differs repr expected subscription (text "NA") n)
            (if_message-not_ascii repr expected members claimed h k)
