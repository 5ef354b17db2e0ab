-- ===== src/Json/Value.antt =====
-- src/json.hpp: the value (`Kind` and the members that it selects) and its std::map of members.
use Prim.Native.Nat.{Ordering}
use bitcoin_tui.Base.{Bool, Bytes, ℤ, Exception, ◌⊎◌, compare_bytes, Option, none, some}

-- What the program takes from the standard library's `double`: reading, printing, conversions.
pub record Floats : Type 1 where
  pub Double : Type 0
  -- std::stod, which throws or returns
  pub stod : Bytes → Exception ⊎ Double
  -- operator<< behind std::setprecision(17)
  pub print : Double → Bytes
  -- std::isfinite
  pub is_finite : Double → Bool
  -- static_cast between double and the integers
  pub of_int : ℤ → Double
  pub to_int : Double → ℤ

-- One constructor for each `Kind`; `Items` is `aval_` and `Fields` is `oval_`.
mutual
  pub data Json (D : Type 0) : Type 0 where
    null : Json D
    bool : Bool → Json D
    int : ℤ → Json D
    float : D → Json D
    string : Bytes → Json D
    array : Items D → Json D
    object : Fields D → Json D

  pub data Items (D : Type 0) : Type 0 where
    no_items : Items D
    item : Json D → Items D → Items D

  pub data Fields (D : Type 0) : Type 0 where
    no_fields : Fields D
    field : Bytes → Json D → Fields D → Fields D

module _ {D : Type 0} where
  -- aval_.push_back(v)
  unfoldable pub push_back : Items D → Json D → Items D
  push_back no_items v = item v no_items
  push_back (item w xs) v = item w (push_back xs v)

  -- oval_[key] = v: std::map keeps its keys in order, and an equal key keeps its place.
  unfoldable pub insert : Bytes → Json D → Fields D → Fields D
  insert key v no_fields = field key v no_fields
  insert key v (field k w fs) = elim (compare_bytes key k) [
    | Ordering.lt ↦ field key v (field k w fs)
    | Ordering.eq ↦ field k v fs
    | Ordering.gt ↦ field k w (insert key v fs)
  ]

  -- oval_.find(key)
  unfoldable pub find : Bytes → Fields D → Option (Json D)
  find key no_fields = none
  find key (field k v fs) = elim (compare_bytes key k) [ Ordering.eq ↦ some v | _ ↦ find key fs ]
