-- ===== src/Json/Access.antt =====
-- src/json.hpp: construction, type queries and access. A reference into the value is modelled by
-- what a caller reads from it, or by the write that it makes through it.
pub mod Laws
use Prim.Native.Nat.{Ordering}
use bitcoin_tui.Base.{
  ℕ, zero, suc, ◌+◌, ◌-◌, ◌%◌, ◌^◌, Bool, true, false, ◌||◌, ◌&&◌, Bytes, codes, ◌==◌,
  if◌then◌else◌, ltb, ℤ, pos, negsuc, Option, none, some, Outcome, ok, throw, out_of_fuel,
  json_exception, bind,
}
use bitcoin_tui.Json.Value.{
  Floats, Json, Items, Fields, null, bool, int, float, string, array, object, no_items, item,
  no_fields, field, push_back, insert, find,
}

-- `try { return get<T>(); } catch (...) { return def; }`
unfoldable pub or_default {ℓ} : {A : Type ℓ} → Outcome A → A → A
or_default (ok a) def = a
or_default _ def = def

module _ {D : Type 0} where
  -- json(std::initializer_list<json>): an object if every element is a pair that begins with a string.
  is_pair : Json D → Bool
  is_pair (array (item (string k) (item v no_items))) = true
  is_pair _ = false

  all_pairs : Items D → Bool
  all_pairs no_items = true
  all_pairs (item v xs) = is_pair v && all_pairs xs

  insert_pair : Json D → Fields D → Fields D
  insert_pair (array (item (string k) (item v no_items))) fs = insert k v fs
  insert_pair _ fs = fs

  insert_pairs : Items D → Fields D → Fields D
  unfolding insert_pair
  insert_pairs no_items fs = fs
  insert_pairs (item v xs) fs = insert_pairs xs (insert_pair v fs)

  unfoldable pub initializer_list : Items D → Json D
  unfolding is_pair all_pairs insert_pairs
  initializer_list init =
      if all_pairs init then object (insert_pairs init no_fields) else array init

  -- The type queries.
  abbrev pub is_null : Json D → Bool
  is_null null = true
  is_null _ = false

  abbrev pub is_bool : Json D → Bool
  is_bool (bool b) = true
  is_bool _ = false

  abbrev pub is_number_integer : Json D → Bool
  is_number_integer (int i) = true
  is_number_integer _ = false

  abbrev pub is_number : Json D → Bool
  is_number (int i) = true
  is_number (float d) = true
  is_number _ = false

  abbrev pub is_string : Json D → Bool
  is_string (string s) = true
  is_string _ = false

  abbrev pub is_array : Json D → Bool
  is_array (array xs) = true
  is_array _ = false

  abbrev pub is_object : Json D → Bool
  is_object (object fs) = true
  is_object _ = false

  -- get<bool>() and get<std::string>().
  unfoldable pub get_bool : Json D → Outcome Bool
  get_bool (bool b) = ok b
  get_bool _ = throw (json_exception (codes "get<bool> on non-bool"))

  unfoldable pub get_string : Json D → Outcome Bytes
  get_string (string s) = ok s
  get_string _ = throw (json_exception (codes "get<string> on non-string"))

  -- `it == oval_.end() ? null_val : it->second`
  abbrev or_null : Option (Json D) → Json D
  or_null none = null
  or_null (some v) = v

  -- The const operator[](key): a missing key, or a value that is no object, reads as null.
  unfoldable pub index : Bytes → Json D → Json D
  unfolding find
  index key (object fs) = or_null (find key fs)
  index key _ = null

  -- operator[](i); past the end the vector's own operator[] has no defined result, `none` here.
  nth : Items D → ℕ → Option (Json D)
  nth no_items i = none
  nth (item v xs) zero = some v
  nth (item v xs) (suc i) = nth xs i

  unfoldable pub at : ℕ → Json D → Outcome (Option (Json D))
  unfolding nth
  at i (array xs) = ok (nth xs i)
  at i _ = throw (json_exception (codes "operator[size_t] on non-array"))

  -- `j[key] = v` through the operator[](key) that is not const: a null value becomes an object.
  unfoldable pub assign : Bytes → Json D → Json D → Outcome (Json D)
  unfolding insert
  assign key v null = ok (object (insert key v no_fields))
  assign key v (object fs) = ok (object (insert key v fs))
  assign key v _ = throw (json_exception (codes "operator[string] on non-object"))

  is_some : Option (Json D) → Bool
  is_some none = false
  is_some (some v) = true

  unfoldable pub contains : Bytes → Json D → Bool
  unfolding find is_some
  contains key (object fs) = is_some (find key fs)
  contains key _ = false

  count_items : Items D → ℕ
  count_items no_items = 0
  count_items (item v xs) = suc (count_items xs)

  count_fields : Fields D → ℕ
  count_fields no_fields = 0
  count_fields (field k v fs) = suc (count_fields fs)

  unfoldable pub size : Json D → ℕ
  unfolding count_items count_fields
  size (array xs) = count_items xs
  size (object fs) = count_fields fs
  size _ = 0

  unfoldable pub is_empty : Json D → Bool
  unfolding size
  is_empty v = size v == 0

  -- begin() and end(): what a range-for visits. Every value has an `aval_`, empty if it is no array.
  abbrev pub elements : Json D → Items D
  elements (array xs) = xs
  elements _ = no_items

  -- items(): what a range-for over the members visits.
  abbrev pub members : Json D → Fields D
  members (object fs) = fs
  members _ = no_fields

  -- value(key, def) for one type: the default for a missing key, for null, and where `get` throws.
  value_of {ℓ} : {A : Type ℓ} → (Json D → Outcome A) → A → Option (Json D) → A
  unfolding or_default
  value_of get def none = def
  value_of get def (some v) = if is_null v then def else or_default (get v) def

  unfoldable pub value {ℓ} : {A : Type ℓ} → (Json D → Outcome A) → Bytes → A → Json D → A
  unfolding value_of find
  value get key def (object fs) = value_of get def (find key fs)
  value get key def _ = def

-- static_cast from int64_t to int: the low 32 bits, read in two's complement.
unfoldable pub low_bits : ℤ → ℕ
low_bits (pos n) = n % 2 ^ 32
low_bits (negsuc n) = 2 ^ 32 - 1 - n % 2 ^ 32

unfoldable pub to_int32 : ℤ → ℤ
unfolding low_bits
to_int32 i = let n = low_bits i in if ltb n (2 ^ 31) then pos n else negsuc (2 ^ 32 - 1 - n)

module _ (fl : Floats) where
  open fl use {Double, of_int, to_int}

  -- get<int64_t>(), get<int>() and get<double>().
  unfoldable pub get_int64 : Json Double → Outcome ℤ
  get_int64 (int i) = ok i
  get_int64 (float d) = ok (to_int d)
  get_int64 _ = throw (json_exception (codes "get<integer> on non-number"))

  unfoldable pub get_int : Json Double → Outcome ℤ
  unfolding to_int32
  get_int (int i) = ok (to_int32 i)
  get_int (float d) = ok (to_int32 (to_int d))
  get_int _ = throw (json_exception (codes "get<integer> on non-number"))

  unfoldable pub get_double : Json Double → Outcome Double
  get_double (float d) = ok d
  get_double (int i) = ok (of_int i)
  get_double _ = throw (json_exception (codes "get<float> on non-number"))
