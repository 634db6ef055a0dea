-- ===== src/Json/Equal.antt =====
-- `==` of JSON values, and the conversions `int(v)` and `float(v)`. A bool equals the integer 0 or
-- 1, and an integer equals a float of the same value; dicts are compared without their order.
use tinyllama_inference_engi.Prelude.{Bool, true, false, ◌&&◌, not, ◌==◌}
use tinyllama_inference_engi.Prelude.Int.{ℤ, pos, eqb_ℤ}
use tinyllama_inference_engi.Result.{Result, ok, err, type_error}
use tinyllama_inference_engi.Json.Floats.{Floats}
use tinyllama_inference_engi.Json.{
  Value, Items, Fields, null, boolean, int, float, str, arr, obj, nil, cons, end, field, get, has,
  size, is_text,
}

abbrev pub bit : Bool → ℤ
bit true = pos 1
bit false = pos 0

module _ {F : Type 0} where
  items_of : Value F → Items F
  items_of (arr vs) = vs
  items_of _ = nil

  -- the fields of a value that is known to be a dict
  unfoldable pub fields_of : Value F → Fields F
  fields_of (obj d) = d
  fields_of _ = end

  is_arr : Value F → Bool
  is_arr (arr vs) = true
  is_arr _ = false

  is_obj : Value F → Bool
  is_obj (obj d) = true
  is_obj _ = false

  unfoldable pub is_null : Value F → Bool
  is_null null = true
  is_null _ = false

  is_nil : Items F → Bool
  is_nil nil = true
  is_nil (cons v vs) = false

  first : Items F → Value F
  first nil = null
  first (cons v vs) = v

  rest : Items F → Items F
  rest nil = nil
  rest (cons v vs) = vs

module _ (fl : Floats) where
  open fl use {F, feq, feq_int, of_int, of_text, int_of_text, truncate}

  eq_integer : ℤ → Value F → Bool
  eq_integer n (int m) = eqb_ℤ n m
  eq_integer n (boolean b) = eqb_ℤ n (bit b)
  eq_integer n (float x) = feq_int x n
  eq_integer n _ = false

  eq_real : F → Value F → Bool
  eq_real x (int m) = feq_int x m
  eq_real x (boolean b) = feq_int x (bit b)
  eq_real x (float y) = feq x y
  eq_real x _ = false

  unfoldable mutual
    unfolding items_of fields_of is_arr is_obj is_null is_nil first rest eq_integer eq_real

    pub eq_value : Value F → Value F → Bool
    eq_value null w = is_null w
    eq_value (boolean b) w = eq_integer (bit b) w
    eq_value (int n) w = eq_integer n w
    eq_value (float x) w = eq_real x w
    eq_value (str s) w = is_text s w
    eq_value (arr vs) w = is_arr w && eq_items vs (items_of w)
    eq_value (obj d) w = is_obj w && (size d == size (fields_of w) && eq_fields d (fields_of w))

    pub eq_items : Items F → Items F → Bool
    eq_items nil ws = is_nil ws
    eq_items (cons v vs) ws = not (is_nil ws) && (eq_value v (first ws) && eq_items vs (rest ws))

    pub eq_fields : Fields F → Fields F → Bool
    eq_fields end e = true
    eq_fields (field k v d) e = has k e && (eq_value v (get k e) && eq_fields d e)

  -- `float(v)`
  unfoldable pub to_float : Value F → Result F
  to_float (float x) = ok x
  to_float (int n) = of_int n
  to_float (boolean b) = of_int (bit b)
  to_float (str s) = of_text s
  to_float _ = err (type_error "float() argument must be a string or a real number")

  -- `int(v)`
  unfoldable pub to_int : Value F → Result ℤ
  to_int (float x) = truncate x
  to_int (int n) = ok n
  to_int (boolean b) = ok (bit b)
  to_int (str s) = int_of_text s
  to_int _ = err (type_error "int() argument must be a string or a real number")
