-- ===== src/Persistence/Emails.antt =====
-- `SqliteEmailStore` of src/mailflow/persistence/sqlite_store.py: saving, counting and reading. The columns
-- that only copy a field, or hold JSON, are one value of a type `X`. The lock makes each method one step.
use mailflow.Base.{
  ℕ, suc, ◌+◌, Text, text_eq, text_eq_iff, Bool, true, false, ◌&&◌, ◌||◌, not, Option, none, some,
  List, [], ◌∷◌, ◌++◌, length, length-append, ◌≡◌, refl, arith, Bool-cases, inl, inr, if◌then◌else◌,
}

-- The fields of the email of an event that the store looks at.
pub record Email (X : Type 0) : Type 0 where
  pub canonical_id : Option Text
  pub references : List Text
  pub columns : X

pub record StoredEmail (X : Type 0) : Type 0 where
  pub canonical_id : Option Text
  pub thread_key : Text
  pub is_read : Bool
  pub columns : X

abbrev pub canonical_or_blank : Option Text → Text
canonical_or_blank none = []
canonical_or_blank (some t) = t

-- `_thread_key`
unfoldable pub thread_key_of : List Text → Option Text → Text
thread_key_of [] canonical_id = canonical_or_blank canonical_id
thread_key_of (r ∷ refs) canonical_id = r

-- UNIQUE: NULLs are all different.
abbrev pub same_id : Option Text → Option Text → Bool
same_id none b = false
same_id (some a) none = false
same_id (some a) (some b) = text_eq a b

same_id-sym : (a b : Option Text) → same_id a b ≡ same_id b a
same_id-sym none none = refl
same_id-sym none (some b) = refl
same_id-sym (some a) none = refl
same_id-sym (some a) (some b) = ground (arith, text_eq_iff a b, text_eq_iff b a)

abbrev pub trues : List Bool → ℕ
trues [] = 0
trues (true ∷ l) = suc (trues l)
trues (false ∷ l) = trues l

module _ {X : Type 0} where
  unfoldable pub has_id : Option Text → List (StoredEmail X) → Bool
  has_id id [] = false
  has_id id (row ∷ rows) = same_id row.canonical_id id || has_id id rows

  abbrev pub to_row : Email X → StoredEmail X
  to_row e = record {
    canonical_id = e.canonical_id;
    thread_key = thread_key_of e.references e.canonical_id;
    is_read = false;
    columns = e.columns;
  }

  -- INSERT OR IGNORE, and whether a row was inserted.
  unfoldable pub save : Email X → List (StoredEmail X) → Bool × List (StoredEmail X)
  unfolding has_id thread_key_of
  save e rows =
      if has_id e.canonical_id rows then (false, rows) else (true, rows ++ (to_row e ∷ []))

  -- SELECT COUNT(*)
  unfoldable pub count_rows : List (StoredEmail X) → ℕ
  count_rows rows = length rows

  -- UPDATE emails SET read=1 WHERE thread_key IS ?, and how many rows it changed.
  unfoldable pub mark_read : Text → List (StoredEmail X) → ℕ × List (StoredEmail X)
  mark_read key [] = (0, [])
  mark_read key (row ∷ rows) =
      let (n, rest) = mark_read key rows in
      if text_eq row.thread_key key
      then (n + 1, record row { is_read = true } ∷ rest)
      else (n, row ∷ rest)

  -- SUM(CASE WHEN read=0 THEN 1 ELSE 0 END) of the group of a thread in `thread_list`.
  unfoldable pub unread_msgs : Text → List (StoredEmail X) → ℕ
  unread_msgs key [] = 0
  unread_msgs key (row ∷ rows) =
      (if text_eq row.thread_key key && not row.is_read then 1 else 0) + unread_msgs key rows

  -- COUNT(*) of the group of a thread.
  unfoldable pub thread_count : Text → List (StoredEmail X) → ℕ
  thread_count key [] = 0
  thread_count key (row ∷ rows) =
      (if text_eq row.thread_key key then 1 else 0) + thread_count key rows

  -- Marking a thread read changes exactly the rows of the thread: as many as it counts, after which
  -- none of it is unread; the unread messages of every other thread, and the rows' number, stay.
  pub mark_read-unread_msgs :
      (key other : Text) (rows : List (StoredEmail X))
      → let (n, rows') = mark_read key rows in
        (n ≡ thread_count key rows)
        × (unread_msgs other rows' ≡ (if text_eq key other then 0 else unread_msgs other rows))
        × (count_rows rows' ≡ count_rows rows)
  unfolding mark_read unread_msgs thread_count count_rows
  mark_read-unread_msgs key other [] = ground arith
  mark_read-unread_msgs key other (row ∷ rows) = ground (
    arith,
    mark_read-unread_msgs key other rows,
    text_eq_iff row.thread_key key,
    text_eq_iff row.thread_key other,
    text_eq_iff key other,
  )

  -- The answers to a sequence of saves, and the table after it.
  unfoldable pub save_all : List (Email X) → List (StoredEmail X) → List Bool × List (StoredEmail X)
  unfolding save
  save_all [] rows = ([], rows)
  save_all (e ∷ es) rows =
      let (inserted, rows1) = save e rows in
      let (answers, rows2) = save_all es rows1 in (inserted ∷ answers, rows2)

  -- No id is there twice.
  abbrev pub Unique : List (StoredEmail X) → Type 0
  Unique [] = Unit
  Unique (row ∷ rows) = (has_id row.canonical_id rows ≡ false) × Unique rows

  has_id-append :
      (id : Option Text) (rows : List (StoredEmail X)) (row : StoredEmail X)
      → has_id id (rows ++ (row ∷ [])) ≡ (has_id id rows || same_id row.canonical_id id)
  unfolding has_id
  has_id-append id [] row = ground arith
  has_id-append id (r ∷ rows) row = ground (arith, has_id-append id rows row)

  Unique-append :
      (rows : List (StoredEmail X)) (row : StoredEmail X)
      → has_id row.canonical_id rows ≡ false
      → Unique rows
      → Unique (rows ++ (row ∷ []))
  unfolding has_id
  Unique-append [] row h u = ground arith
  Unique-append (r ∷ rows) row h u = ground (
    arith,
    Unique-append rows row,
    has_id-append r.canonical_id rows row,
    same_id-sym r.canonical_id row.canonical_id,
  )

  save-Unique : (e : Email X) (rows : List (StoredEmail X)) → Unique rows → Unique (save e rows).1
  unfolding save
  save-Unique e rows u = elim (Bool-cases (has_id e.canonical_id rows)) [
    | inl known ↦ rw known u
    | inr new ↦ rw new (Unique-append rows (to_row e) new u)
  ]

  save-count :
      (e : Email X) (rows : List (StoredEmail X))
      → count_rows (save e rows).1 ≡ count_rows rows + (if (save e rows).0 then 1 else 0)
  unfolding save count_rows
  save-count e rows = ground (arith, length-append rows (to_row e ∷ []))

  -- Emails are stored once: whatever is saved, in whatever order and however often, no canonical id is
  -- there twice if none was before, and the table grows by the number of saves that answered true.
  pub save_all-Unique :
      (es : List (Email X)) (rows : List (StoredEmail X))
      → Unique rows
      → Unique (save_all es rows).1
        × (count_rows (save_all es rows).1 ≡ count_rows rows + trues (save_all es rows).0)
  unfolding save_all
  save_all-Unique [] rows u = ground arith
  save_all-Unique (e ∷ es) rows u =
      ground (arith, save_all-Unique es (save e rows).1, save-Unique e rows u, save-count e rows)
