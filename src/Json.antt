-- ===== src/Json.antt =====
-- Documents as `json.loads` returns them, and what the scripts do with the values: `d.get(key)`,
-- `d[key]`, `==`, `isinstance`, `int(v)` and `float(v)`. The text syntax of JSON is not modelled.
pub mod Floats
pub mod Equal
use tinyllama_inference_engi.Prelude.{
  ℕ, suc, Bool, true, false, ◌||◌, not, List, [], ◌∷◌, if◌then◌else◌, any, Text, same,
}
use tinyllama_inference_engi.Prelude.Strings.{contains}
use tinyllama_inference_engi.Prelude.Int.{ℤ, pos, negsuc, eqb_ℤ, ltb_ℤ, leb_ℤ}
use tinyllama_inference_engi.Result.{
  Result, Error, ok, err, type_error, key_error, value_error, attribute_error, index_error,
}

mutual
  pub data Value (F : Type 0) : Type 0 where
    null : Value F
    boolean : Bool → Value F
    int : ℤ → Value F
    float : F → Value F
    str : Text → Value F
    arr : Items F → Value F
    obj : Fields F → Value F

  pub data Items (F : Type 0) : Type 0 where
    nil : Items F
    cons : Value F → Items F → Items F

  pub data Fields (F : Type 0) : Type 0 where
    end : Fields F
    field : Text → Value F → Fields F → Fields F

module _ {F : Type 0} where
  abbrev pub to_list : Items F → List (Value F)
  to_list nil = []
  to_list (cons v vs) = v ∷ to_list vs

  -- `d.get(key)`: None when the key is missing
  abbrev pub get : Text → Fields F → Value F
  get k end = null
  get k (field j v d) = if same j k then v else get k d

  -- `key in d`
  abbrev pub has : Text → Fields F → Bool
  has k end = false
  has k (field j v d) = same j k || has k d

  abbrev pub size : Fields F → ℕ
  size end = 0
  size (field j v d) = suc (size d)

  -- `d[key]`
  abbrev pub index : Fields F → Text → Result (Value F)
  index d k = if has k d then ok (get k d) else err (key_error "")

  -- a value that the code takes for a dict, a list, a text: a wrong kind raises where it is used
  abbrev pub as_dict : Value F → Result (Fields F)
  as_dict (obj d) = ok d
  as_dict _ = err (attribute_error "get")

  abbrev pub as_list : Value F → Result (List (Value F))
  as_list (arr vs) = ok (to_list vs)
  as_list _ = err (type_error "not a list")

  abbrev pub as_str : Value F → Result Text
  as_str (str s) = ok s
  as_str _ = err (type_error "not a str")

  -- `isinstance`
  abbrev pub is_dict : Value F → Bool
  is_dict (obj d) = true
  is_dict _ = false

  abbrev pub is_list : Value F → Bool
  is_list (arr vs) = true
  is_list _ = false

  abbrev pub is_str : Value F → Bool
  is_str (str s) = true
  is_str _ = false

  abbrev pub is_bool : Value F → Bool
  is_bool (boolean b) = true
  is_bool _ = false

  -- `v is True`
  abbrev pub is_true : Value F → Bool
  is_true (boolean b) = b
  is_true _ = false

  -- `isinstance(v, int)` holds of a bool too.
  abbrev pub is_int : Value F → Bool
  is_int (int n) = true
  is_int (boolean b) = true
  is_int _ = false

  -- `d[key] = v`: a key that is there keeps its place.
  unfoldable pub set_field : Text → Value F → Fields F → Fields F
  set_field k v end = field k v end
  set_field k v (field j w d) =
      let rest = set_field k v d in if same j k then field j v d else field j w rest

  -- `d.get(key, default)`
  abbrev pub get_or : Value F → Text → Fields F → Value F
  get_or default key d = if has key d then get key d else default

  -- The value as a list: none if it is not one
  abbrev pub items : Value F → List (Value F)
  items (arr vs) = to_list vs
  items _ = []

  -- `value[key]` of any value: what has no text keys raises a TypeError.
  abbrev pub subscript : Value F → Text → Result (Value F)
  subscript (obj d) key = index d key
  subscript _ key = err (type_error "not subscriptable")

  -- `value[0]` of a list
  abbrev pub first_item : Value F → Result (Value F)
  first_item (arr nil) = err (index_error "list index out of range")
  first_item (arr (cons v vs)) = ok v
  first_item _ = err (type_error "not subscriptable")

  abbrev pub keys : Fields F → List (Value F)
  keys end = []
  keys (field k v d) = str k ∷ keys d

  -- `is None`
  abbrev pub is_none : Value F → Bool
  is_none null = true
  is_none _ = false

  abbrev pub is_text : Text → Value F → Bool
  is_text s (str t) = same s t
  is_text s _ = false

  -- `hash(v)` is defined.
  abbrev pub hashable : Value F → Bool
  hashable (arr vs) = false
  hashable (obj d) = false
  hashable _ = true

  -- `key in v`: a key of a dict, an item of a list, a part of a text
  abbrev pub mentions : Text → Value F → Result Bool
  mentions key (obj d) = ok (has key d)
  mentions key (arr vs) = ok (any (is_text key) (to_list vs))
  mentions key (str s) = ok (contains key s)
  mentions key _ = err (type_error "argument is not iterable")

  -- A dict display: its keys are distinct.
  abbrev pub fields : List (Text × Value F) → Fields F
  fields [] = end
  fields ((k, v) ∷ rest) = field k v (fields rest)
