-- ===== src/Json.antt =====
-- What `json.loads` returns, as the adapters of src/mailflow/adapters take it apart: Python's None, bool,
-- int, float, str, list and dict. `json.loads` and the `repr` of a container are Python's: parameters
-- where they are called.
use mailflow.Base.{
  zero, Bool, true, false, not, ℤ, pos, Text, text, text_Eq, show_int, List, [], ◌∷◌, ◌++◌,
  is_empty,
}
use mailflow.Exec.{Exc, unknown, Result, ok, err}
use mailflow.Dict
use mailflow.Dict.{Dict, or_default}

-- A float is told by its `repr`, and by whether it is zero.
mutual
  pub data Json : Type 0 where
    null : Json
    bool : Bool → Json
    int : ℤ → Json
    float : Bool → Text → Json
    str : Text → Json
    array : Items → Json
    object : Fields → Json

  pub data Items : Type 0 where
    nil : Items
    cons : Json → Items → Items

  pub data Fields : Type 0 where
    end : Fields
    field : Text → Json → Fields → Fields

abbrev pub elements : Items → List Json
elements nil = []
elements (cons j l) = j ∷ elements l

abbrev pub entries : Fields → Dict Text Json
entries end = []
entries (field k j fs) = (k, j) ∷ entries fs

abbrev pub items_of : List Json → Items
items_of [] = nil
items_of (j ∷ l) = cons j (items_of l)

-- A dict display, whose keys are all different.
abbrev pub fields_of : Dict Text Json → Fields
fields_of [] = end
fields_of ((k, j) ∷ d) = field k j (fields_of d)

abbrev pub type_name : Json → Text
type_name null = text "NoneType"
type_name (bool b) = text "bool"
type_name (int n) = text "int"
type_name (float z r) = text "float"
type_name (str s) = text "str"
type_name (array l) = text "list"
type_name (object fs) = text "dict"

-- bool(j)
abbrev pub truthy : Json → Bool
truthy null = false
truthy (bool b) = b
truthy (int (pos zero)) = false
truthy (int n) = true
truthy (float is_zero r) = not is_zero
truthy (str s) = not (is_empty s)
truthy (array l) = not (is_empty (elements l))
truthy (object fs) = not (is_empty (entries fs))

-- isinstance(j, dict)
abbrev pub is_dict : Json → Bool
is_dict (object fs) = true
is_dict _ = false

unfoldable pub attribute_error : Json → Text → Exc
attribute_error j name = record {
  kind = unknown;
  class_name = text "AttributeError";
  message = b'\'' ∷ type_name j ++ (text "' object has no attribute '" ++ (name ++ text "'"));
}

unfoldable pub type_error : Json → Text → Exc
type_error j what = record {
  kind = unknown;
  class_name = text "TypeError";
  message = b'\'' ∷ type_name j ++ (text "' object is not " ++ what);
}

-- j.get(key, default)
unfoldable pub get_or : Json → Text → Json → Result Json
unfolding attribute_error Dict.get
get_or (object fs) key default = ok (or_default default (Dict.get (entries fs) key))
get_or j key default = err (attribute_error j (text "get"))

-- `for item in j`: a dict gives its keys and a str its characters.
unfoldable pub iterate : Json → Result (List Json)
unfolding type_error
iterate (array l) = ok (elements l)
iterate (object fs) = ok (keys (entries fs))
  where
    keys : Dict Text Json → List Json
    keys [] = []
    keys ((k, j) ∷ d) = str k ∷ keys d
iterate (str s) = ok (characters s)
  where
    characters : Text → List Json
    characters [] = []
    characters (c ∷ t) = str (c ∷ []) ∷ characters t
iterate j = err (type_error j (text "iterable"))

-- `a or b`
abbrev pub or_else : Json → Json → Json
or_else a b = pick (truthy a)
  where
    pick : Bool → Json
    pick true = a
    pick false = b

-- str(j), where `repr` prints the containers.
unfoldable pub str_of : (Json → Text) → Json → Text
str_of repr null = text "None"
str_of repr (bool true) = text "True"
str_of repr (bool false) = text "False"
str_of repr (int n) = show_int n
str_of repr (float z r) = r
str_of repr (str s) = s
str_of repr (array l) = repr (array l)
str_of repr (object fs) = repr (object fs)

-- j[0]
unfoldable pub first_of : Json → Result Json
unfolding type_error
first_of (array nil) = err (record {
  kind = unknown;
  class_name = text "IndexError";
  message = text "list index out of range";
})
first_of (array (cons j l)) = ok j
first_of (str []) = err (record {
  kind = unknown;
  class_name = text "IndexError";
  message = text "string index out of range";
})
first_of (str (c ∷ t)) = ok (str (c ∷ []))
first_of (object fs) =
    err (record { kind = unknown; class_name = text "KeyError"; message = text "0" })
first_of j = err (type_error j (text "subscriptable"))
