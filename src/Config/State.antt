-- ===== src/Config/State.antt =====
-- src/mailflow/config/state.py. The functions of `os.path` are POSIX's; the message of an exception names the
-- state, and is not spelled as the source has it.
use mailflow.Base.{
  ℕ, leb, Text, text, text_eq, Bool, false, ◌&&◌, ◌||◌, not, [], ◌∷◌, ◌++◌, drop, reverse, is_empty,
  starts_with, has_char, if◌then◌else◌,
}
use mailflow.Exec.{Exc, unknown, Result, ok, err}
use mailflow.Dict.{Dict}

-- Its `options` are empty here.
pub record ComponentConfig : Type 0 where
  pub kind : Text
  pub params : Dict Text Text

pub record StoresConfig : Type 0 where
  pub cursor : ComponentConfig
  pub dedupe : ComponentConfig
  pub blob : ComponentConfig
  pub dead_letter : ComponentConfig

abbrev pub in_memory : ComponentConfig
in_memory = record { kind = text "memory"; params = [] }

abbrev is_letter : ℕ → Bool
is_letter c = (leb b'A' c && leb c b'Z') || (leb b'a' c && leb c b'z')

-- _WIN_DRIVE.match(path)
unfoldable pub has_win_drive : Text → Bool
has_win_drive [] = false
has_win_drive (s ∷ []) = false
has_win_drive (s ∷ c ∷ []) = false
has_win_drive (s ∷ c ∷ d ∷ rest) =
    text_eq (s ∷ []) (text "/") && (is_letter c && text_eq (d ∷ []) (text ":"))

-- path.startswith("/") and "/" not in path[1:]
unfoldable pub is_root_level : Text → Bool
is_root_level path = starts_with (text "/") path && not (has_char b'/' (drop 1 path))

-- What is left of a text after the characters up to the last "/" in it are taken: on the reverse.
abbrev drop_name : Text → Text
drop_name [] = []
drop_name (c ∷ s) = if text_eq (c ∷ []) (text "/") then c ∷ s else drop_name s

abbrev drop_slashes : Text → Text
drop_slashes [] = []
drop_slashes (c ∷ s) = if text_eq (c ∷ []) (text "/") then drop_slashes s else c ∷ s

-- os.path.dirname: without the slashes at its end, unless it is slashes alone.
unfoldable pub dirname : Text → Text
dirname path =
    let head = drop_name (reverse path) in
    if is_empty (drop_slashes head) then reverse head else reverse (drop_slashes head)

-- os.path.join(base, "attachments") if base else "attachments"
unfoldable pub attachments_in : Text → Text
attachments_in [] = text "attachments"
attachments_in (c ∷ s) =
    if starts_with (text "/") (reverse (c ∷ s))
    then (c ∷ s) ++ text "attachments"
    else (c ∷ s) ++ text "/attachments"

abbrev pub sqlite_at : Text → StoresConfig
sqlite_at path = record {
  cursor = record { kind = text "sqlite"; params = (text "path", path) ∷ [] };
  dedupe = record { kind = text "sqlite"; params = (text "path", path) ∷ [] };
  blob = record {
    kind = text "local";
    params = (text "directory", attachments_in (dirname path)) ∷ [];
  };
  dead_letter = record { kind = text "sqlite"; params = (text "path", path) ∷ [] };
}

abbrev pub postgres_at : Text → StoresConfig
postgres_at dsn = record {
  cursor = record { kind = text "postgres"; params = (text "dsn", dsn) ∷ [] };
  dedupe = record { kind = text "postgres"; params = (text "dsn", dsn) ∷ [] };
  blob = record { kind = text "local"; params = (text "directory", text "attachments") ∷ [] };
  dead_letter = record { kind = text "postgres"; params = (text "dsn", dsn) ∷ [] };
}

abbrev pub value_error : Text → Exc
value_error state = record {
  kind = unknown;
  class_name = text "ValueError";
  message = text "sqlite state needs a path, got " ++ state;
}

abbrev pub not_implemented : Text → Exc
not_implemented state = record {
  kind = unknown;
  class_name = text "NotImplementedError";
  message = text "unsupported state " ++ state;
}

abbrev without_drive : Text → Text
without_drive path = if has_win_drive path then drop 1 path else path

abbrev relative : Text → Text
relative path = if is_root_level path then drop 1 path else path

-- The branch of "sqlite://", with the path after it.
unfoldable pub resolve_sqlite : Text → Text → Result StoresConfig
unfolding has_win_drive is_root_level dirname attachments_in
resolve_sqlite state path =
    if is_empty (without_drive path)
    then err (value_error state)
    else ok (sqlite_at (relative (without_drive path)))

unfoldable pub resolve_state : Text → Result StoresConfig
unfolding resolve_sqlite
resolve_state state =
    if text_eq state (text "memory")
    then ok (record {
      cursor = in_memory;
      dedupe = in_memory;
      blob = in_memory;
      dead_letter = in_memory;
    })
    else if starts_with (text "sqlite://") state
    then resolve_sqlite state (drop 9 state)
    else if starts_with (text "postgresql://") state || starts_with (text "postgres://") state
    then ok (postgres_at state)
    else err (not_implemented state)
