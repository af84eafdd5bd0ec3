-- ===== src/Gmail/Client/History.antt =====
-- `GmailClient.history_message_ids` of src/mailflow/adapters/gmail/client.py. The `while True` runs as long as Gmail
-- names a next page, so it is recursion on fuel here, none where the fuel is out; the theorem gives the
-- fuel that is enough.
use mailflow.Base.{
  ℕ, zero, suc, ◌==◌, ◌≤◌, Text, text, text_eq, text_Eq, Option, none, some, List, [], ◌∷◌, ◌++◌,
  has, add_all, count, add_all-once, add_all-append, ◌≡◌, sym, ap, ◌∙◌, arith, if◌then◌else◌,
}
use mailflow.Exec.{Exec, Exc, unknown, Result, ok, err, pure, ◌>>=◌}
use mailflow.Exec.Results
use mailflow.Json.{
  Json, null, str, array, nil, object, end, get_or, iterate, is_dict, or_else, str_of, truthy,
}
use mailflow.Gmail.Client.{GmailClient, Slots, Response, request, lift_result, user_url}

abbrev pub stale_history : Text → Text → Exc
stale_history start user_id = record {
  kind = unknown;
  class_name = text "StaleHistoryError";
  message = text "historyId " ++ (start ++ (text " too old for " ++ user_id));
}

abbrev append_results : Result (List Text) → Result (List Text) → Result (List Text)
append_results r s = Results.◌>>=◌ r λ l. Results.◌>>=◌ s λ k. ok (l ++ k)

-- A message id that is not "".
abbrev nonempty : Text → List Text
nonempty [] = []
nonempty (c ∷ s) = (c ∷ s) ∷ []

module _ (repr : Json → Text) where
  -- x.get(key, []) or []
  abbrev list_field : Json → Text → Result (List Json)
  list_field j key = Results.◌>>=◌ (get_or j key (array nil)) λ v. iterate (or_else v (array nil))

  abbrev id_of : Json → Result (List Text)
  id_of added = Results.◌>>=◌ (get_or added (text "message") null) λ message.
      Results.◌>>=◌ (get_or (or_else message (object end)) (text "id") (str []))
        λ id. ok (nonempty (str_of repr id))

  unfoldable pub concat_results : (Json → Result (List Text)) → List Json → Result (List Text)
  concat_results f [] = ok []
  concat_results f (j ∷ l) = append_results (f j) (concat_results f l)

  abbrev added_ids : Json → Result (List Text)
  added_ids h = Results.◌>>=◌ (list_field h (text "messagesAdded")) (concat_results id_of)

  -- The ids of the two loops over a page, before they are told from those that were seen.
  unfoldable pub page_ids : Json → Result (List Text)
  unfolding get_or iterate str_of concat_results
  page_ids page = Results.◌>>=◌ (list_field page (text "history")) (concat_results added_ids)

-- A page: its history id if it has one, its message ids, and the token of the next page.
pub record Page : Type 0 where
  pub history_id : Option Text
  pub ids : List Text
  pub next : Option Text

module _ {X : Type 0} (client : GmailClient X) (status_of : Exc → Option ℕ) where
  abbrev if_truthy : Json → Option Text
  if_truthy j = if truthy j then some (str_of client.repr j) else none

  abbrev page_of : Json → Result Page
  page_of page = Results.◌>>=◌ (get_or page (text "historyId") null) λ latest.
      Results.◌>>=◌ (page_ids client.repr page) λ ids.
        Results.◌>>=◌ (get_or page (text "nextPageToken") null)
          λ token. ok (record { history_id = if_truthy latest; ids = ids; next = if_truthy token })

  -- A response that is no dict ends the loop.
  abbrev no_page : Page
  no_page = record { history_id = none; ids = []; next = none }

  abbrev with_param : Text → Option Text → Text
  with_param name none = []
  with_param name (some []) = []
  with_param name (some (c ∷ s)) = name ++ (c ∷ s)

  unfoldable pub history_url : Text → Text → Option Text → Option Text → Text
  history_url user_id start label_id page_token = user_url client user_id (
      text "/history?startHistoryId="
      ++ (start
          ++ (text "&historyTypes=messageAdded"
              ++ (with_param (text "&labelId=") label_id
                  ++ with_param (text "&pageToken=") page_token))))

  abbrev on_refused : Text → Text → Exc → Option ℕ → Exc
  on_refused user_id start exc none = exc
  on_refused user_id start exc (some status) =
      if status == 404 then stale_history start user_id else exc

  -- The request of a turn, where a 404 says that the start is too old.
  unfoldable pub fetch_history : Text → Text → Option Text → Option Text → Exec (Slots X) Response
  unfolding request history_url
  fetch_history user_id start label_id page_token s =
      let (r, t) =
        request client (text "GET") (history_url user_id start label_id page_token) none s in
      elim r [
        | ok resp ↦ (ok resp, t)
        | err exc ↦ (err (on_refused user_id start exc (status_of exc)), t)
      ]

  unfoldable pub fetch_page : Text → Text → Option Text → Option Text → Exec (Slots X) Page
  unfolding fetch_history page_ids get_or str_of
  fetch_page user_id start label_id page_token =
      fetch_history user_id start label_id page_token >>= λ resp.
      lift_result client resp.json >>= λ page.
      if is_dict page then lift_result client (page_of page) else pure no_page

  abbrev pub or_latest : Option Text → Text → Text
  or_latest none latest = latest
  or_latest (some t) latest = t

  unfoldable pub pages_from :
      ℕ
      → Text
      → Text
      → Option Text
      → Option Text
      → List Text
      → Text
      → Exec (Slots X) (Option (List Text × Text))
  unfolding fetch_page text_eq
  pages_from zero user_id start label_id token ids latest = pure none
  pages_from (suc fuel) user_id start label_id token ids latest =
      fetch_page user_id start label_id token >>= λ page. elim page.next [
        | none ↦ pure (some (add_all ids page.ids, or_latest page.history_id latest))
        | some next ↦
            pages_from fuel user_id start label_id (some next) (add_all ids page.ids)
              (or_latest page.history_id latest)
      ]

  unfoldable pub history_message_ids :
      ℕ → Text → Text → Option Text → Exec (Slots X) (Option (List Text × Text))
  unfolding pages_from
  history_message_ids fuel user_id start label_id =
      pages_from fuel user_id start label_id none [] start

  -- Gmail answers a token with a chain of so many pages; their ids and the last history id.
  pub data Pages (user_id start : Text) (label_id : Option Text)
      : ℕ → Slots X → Option Text → List Text → Text → Text → Slots X → Type 0 where
    last_page :
        {token : Option Text} {page : Page} {latest : Text} {s t : Slots X}
        → fetch_page user_id start label_id token s ≡ (ok page, t)
        → page.next ≡ none
        → Pages user_id start label_id 1 s token page.ids latest
            (or_latest page.history_id latest)
            t
    further_page :
        {n : ℕ} {token : Option Text} {next latest final : Text} {page : Page} {rest : List Text}
        {s t u : Slots X}
        → fetch_page user_id start label_id token s ≡ (ok page, t)
        → page.next ≡ some next
        → Pages user_id start label_id n t
            (some next)
            rest
            (or_latest page.history_id latest)
            final
            u
        → Pages user_id start label_id (suc n) s token (page.ids ++ rest) latest final u

  pages_from-Pages :
      (user_id start : Text) (label_id : Option Text) (fuel : ℕ) {n : ℕ} {token : Option Text}
      {l : List Text} {latest final : Text} {s t : Slots X} (ids : List Text)
      → Pages user_id start label_id n s token l latest final t
      → n ≤ fuel
      → pages_from fuel user_id start label_id token ids latest s
        ≡ (ok (some (add_all ids l, final)), t)
  unfolding pages_from
  pages_from-Pages user_id start label_id zero ids (last_page p q) le = ground arith
  pages_from-Pages user_id start label_id (suc fuel) ids (last_page p q) le = rw (p, q)
  pages_from-Pages user_id start label_id zero ids (further_page p q r) le = ground arith
  pages_from-Pages user_id start label_id (suc fuel) ids
        (further_page {final = final} {page = page} {rest = rest} {u = u} p q r) le =
      rw (p, q)
        (pages_from-Pages user_id start label_id fuel (add_all ids page.ids) r (omega arith)
          ∙ ap (λ k. (ok (some (k, final)), u)) (sym (add_all-append ids page.ids rest)))

  -- Where Gmail answers with so many pages, and the fuel is that number or more, the diff returns the
  -- message ids of all pages, each of them once, and the history id of the last page that has one,
  -- which is the start where none has.
  pub history_message_ids-Pages :
      (user_id start : Text) (label_id : Option Text) (fuel : ℕ) {n : ℕ} {l : List Text}
      {final : Text} {s t : Slots X}
      → Pages user_id start label_id n s none l start final t
      → n ≤ fuel
      → (history_message_ids fuel user_id start label_id s ≡ (ok (some (add_all [] l, final)), t))
        × ((id : Text) → count (text_eq id) (add_all [] l) ≡ (if has id l then 1 else 0))
  unfolding history_message_ids
  history_message_ids-Pages user_id start label_id fuel {l = l} r le =
      (pages_from-Pages user_id start label_id fuel [] r le, λ id. add_all-once id l)
