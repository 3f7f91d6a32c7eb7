-- ===== src/Eval/Values.antt =====
-- The values that a YAML file gives, and what src/pqpatch/eval/traps.py asks of them in Python.
use nesy_pqpatch.Prelude.{
  Text, text, text_eq, Bool, true, false, Option, none, some, List, [], ◌∷◌, if◌then◌else◌,
}
use nesy_pqpatch.Python.{repr}

-- A value that is no text, Boolean, list or dict: how `str`, `repr` and `type` show it, and whether
-- it counts as true.
pub record Scalar : Type 0 where
  pub shown : Text
  pub represented : Text
  pub type_name : Text
  pub is_true : Bool

-- Lists and dicts have what `str` gives of them; a dict has its entries with a text for a key.
mutual
  pub data Value : Type 0 where
    text_value : Text → Value
    bool_value : Bool → Value
    scalar : Scalar → Value
    list_value : (shown : Text) → Values → Value
    dict_value : (shown : Text) → Entries → Value

  pub data Values : Type 0 where
    nil : Values
    cons : Value → Values → Values

  pub data Entries : Type 0 where
    end : Entries
    entry : Text → Value → Entries → Entries

abbrev pub items_of : Values → List Value
items_of nil = []
items_of (cons v vs) = v ∷ items_of vs

-- d.get(key)
unfoldable pub lookup : Text → Entries → Option Value
lookup key end = none
lookup key (entry k v es) = if text_eq key k then some v else lookup key es

abbrev bool_text : Bool → Text
bool_text true = text "True"
bool_text false = text "False"

-- str(v)
unfoldable pub str : Value → Text
str (text_value t) = t
str (bool_value b) = bool_text b
str (scalar s) = s.shown
str (list_value shown vs) = shown
str (dict_value shown es) = shown

-- repr(v)
unfoldable pub repr_value : Value → Text
unfolding repr
repr_value (text_value t) = repr t
repr_value (bool_value b) = bool_text b
repr_value (scalar s) = s.represented
repr_value (list_value shown vs) = shown
repr_value (dict_value shown es) = shown

-- type(v).__name__
unfoldable pub type_name : Value → Text
type_name (text_value t) = text "str"
type_name (bool_value b) = text "bool"
type_name (scalar s) = s.type_name
type_name (list_value shown vs) = text "list"
type_name (dict_value shown es) = text "dict"

-- bool(v)
unfoldable pub truth : Value → Bool
truth (text_value []) = false
truth (text_value (c ∷ t)) = true
truth (bool_value b) = b
truth (scalar s) = s.is_true
truth (list_value shown nil) = false
truth (list_value shown (cons v vs)) = true
truth (dict_value shown end) = false
truth (dict_value shown (entry k v es)) = true

-- str(d[key]) if d.get(key) else None
unfoldable pub str_or_none : Option Value → Option Text
str_or_none none = none
str_or_none (some v) = if truth v then some (str v) else none
