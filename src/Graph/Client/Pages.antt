-- ===== src/Graph/Client/Pages.antt =====
-- `GraphClient.delta_sweep` of src/mailflow/adapters/graph/client.py. The `while True` runs as long as Graph
-- names a next page, so it is recursion on fuel here, none where the fuel is out; the theorem gives the
-- fuel that is enough.
use mailflow.Base.{
  ℕ, zero, suc, ◌≤◌, Text, text, Option, none, some, List, [], ◌∷◌, ◌++◌, ◌≡◌, ap, ◌∙◌, arith,
  if◌then◌else◌,
}
use mailflow.Exec.{Exec, ok, pure, ◌>>=◌}
use mailflow.Json.{Json, null, str, array, nil, get_or, iterate, is_dict, str_of, truthy}
use mailflow.Graph.Client.{
  GraphClient, request_json, user_url, lift_result, only_dicts, message_select,
}
use mathlib.Core.List.{append_assoc}

-- What a page says of the pages behind it: a next link, or the link to resume from.
pub data PageEnd : Type 0 where
  next_link : Text → PageEnd
  delta_link : Text → PageEnd

module _ {X : Type 0} (client : GraphClient X) where
  abbrev page_end : Json → Exec X PageEnd
  page_end body = do
    next ← lift_result client (get_or body (text "@odata.nextLink") null)
    delta ← lift_result client (get_or body (text "@odata.deltaLink") (str []))
    pure (
        if truthy next
        then next_link (str_of client.repr next)
        else delta_link (str_of client.repr delta))

  abbrev read_page : Json → Exec X (List Json × PageEnd)
  read_page body = do
    value ← lift_result client (get_or body (text "value") (array nil))
    l ← lift_result client (iterate value)
    end ← page_end body
    pure (only_dicts l, end)

  -- The body of the loop: a response that is no dict ends it with no link.
  unfoldable pub fetch_page : Text → Exec X (List Json × PageEnd)
  unfolding request_json get_or iterate str_of
  fetch_page url = request_json client (text "GET") url none >>= λ body.
      if is_dict body then read_page body else pure ([], delta_link [])

  abbrev or_link : Option Text → Text → Text
  or_link none url = url
  or_link (some []) url = url
  or_link (some (c ∷ s)) url = c ∷ s

  unfoldable pub pages_from : ℕ → Text → List Json → Exec X (Option (List Json × Text))
  unfolding fetch_page
  pages_from zero url messages = pure none
  pages_from (suc fuel) url messages = fetch_page url >>= λ page. elim page.1 [
    | next_link next ↦ pages_from fuel next (messages ++ page.0)
    | delta_link delta ↦ pure (some (messages ++ page.0, delta))
  ]

  unfoldable pub delta_sweep : ℕ → Text → Text → Option Text → Exec X (Option (List Json × Text))
  unfolding pages_from user_url
  delta_sweep fuel user_id folder link =
      pages_from fuel
        (or_link link (
          user_url client user_id (
            text "/mailFolders('"
            ++ (folder ++ (text "')/messages/delta?$select=" ++ message_select)))))
        []

  -- Graph answers a url with a chain of so many pages, which ends in a link to resume from.
  pub data Pages : ℕ → X → Text → List Json → Text → X → Type 0 where
    last_page :
        {url delta : Text} {l : List Json} {x y : X}
        → fetch_page url x ≡ (ok (l, delta_link delta), y)
        → Pages 1 x url l delta y
    further_page :
        {n : ℕ} {url next delta : Text} {l rest : List Json} {x y z : X}
        → fetch_page url x ≡ (ok (l, next_link next), y)
        → Pages n y next rest delta z
        → Pages (suc n) x url (l ++ rest) delta z

  -- The loop returns the messages of all pages in their order, behind those that it had, and the link of
  -- the last page, if its fuel is the number of pages or more.
  pub pages_from-Pages :
      (fuel : ℕ) {n : ℕ} {url delta : Text} {l : List Json} {x y : X} (messages : List Json)
      → Pages n x url l delta y
      → n ≤ fuel
      → pages_from fuel url messages x ≡ (ok (some (messages ++ l, delta)), y)
  unfolding pages_from
  pages_from-Pages zero messages (last_page p) le = ground arith
  pages_from-Pages (suc fuel) messages (last_page p) le = rw p
  pages_from-Pages zero messages (further_page p r) le = ground arith
  pages_from-Pages (suc fuel) messages
        (further_page {delta = delta} {l = l} {rest = rest} {z = z} p r) le =
      rw p (
        pages_from-Pages fuel (messages ++ l) r (omega arith)
        ∙ ap (λ t. (ok (some (t, delta)), z)) (append_assoc messages l rest))
