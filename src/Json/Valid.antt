-- ===== src/Json/Valid.antt =====
-- src/json.hpp: the values that a `json` object can hold: its std::map in order, its int64_t in range.
use Prim.Native.Nat.{Ordering}
use bitcoin_tui.Base.{
  Bytes, compare_bytes, compare_bytes-eq, compare_bytes-gt, compare_bytes_trans, ◌≡◌, InInt64,
  arith, some, if◌then◌else◌, same_bytes,
}
use bitcoin_tui.Json.Value.{
  Json, Items, Fields, null, bool, int, float, string, array, object, no_items, item, no_fields,
  field, push_back, insert, find,
}

module _ {D : Type 0} where
  -- Every key of `fs` comes after `key`.
  abbrev pub Above : Bytes → Fields D → Type 0
  Above key no_fields = Unit
  Above key (field k v fs) = (compare_bytes key k ≡ Ordering.lt) × Above key fs

  -- The keys of a std::map: each after the one before, none twice.
  abbrev pub IsSorted : Fields D → Type 0
  IsSorted no_fields = Unit
  IsSorted (field k v fs) = Above k fs × IsSorted fs

  Above-trans :
      (j k : Bytes) (fs : Fields D) → compare_bytes j k ≡ Ordering.lt → Above k fs → Above j fs
  Above-trans j k no_fields h a = tt
  Above-trans j k (field i v fs) h a = (compare_bytes_trans j k i h a.0, Above-trans j k fs h a.1)

  insert-Above :
      (j k : Bytes) (v : Json D) (fs : Fields D)
      → compare_bytes j k ≡ Ordering.lt
      → Above j fs
      → Above j (insert k v fs)
  unfolding insert
  insert-Above j k v no_fields h a = (h, tt)
  insert-Above j k v (field i w fs) h a = ground (arith, insert-Above j k v fs h a.1)

  pub insert-IsSorted :
      (k : Bytes) (v : Json D) (fs : Fields D) → IsSorted fs → IsSorted (insert k v fs)
  unfolding insert
  insert-IsSorted k v no_fields s = (tt, tt)
  insert-IsSorted k v (field i w fs) s = ground (
    arith,
    insert-IsSorted k v fs s.1,
    insert-Above i k v fs,
    compare_bytes-gt k i,
    Above-trans k i fs,
  )

  -- std::map::operator[] and find: a write is seen under its own key and under no other.
  pub find-insert :
      (key k : Bytes) (v : Json D) (fs : Fields D)
      → find key (insert k v fs) ≡ (if same_bytes key k then some v else find key fs)
  unfolding find insert
  find-insert key k v no_fields = ground arith
  find-insert key k v (field i w fs) = ground (
    arith,
    find-insert key k v fs,
    compare_bytes-eq k i,
    compare_bytes-eq key k,
    compare_bytes-eq key i,
  )

-- The members and elements too: objects in order, integers in range, and of each double what `P`
-- says.
module _ {D : Type 0} (P : D → Type 0) where
  unfoldable mutual
    pub IsValid : Json D → Type 0
    IsValid null = Unit
    IsValid (bool b) = Unit
    IsValid (int i) = InInt64 i
    IsValid (float d) = P d
    IsValid (string s) = Unit
    IsValid (array xs) = AreValid xs
    IsValid (object fs) = IsSorted fs × HoldValid fs

    pub AreValid : Items D → Type 0
    AreValid no_items = Unit
    AreValid (item v xs) = IsValid v × AreValid xs

    pub HoldValid : Fields D → Type 0
    HoldValid no_fields = Unit
    HoldValid (field k v fs) = IsValid v × HoldValid fs

  -- What the loops of the parser write keeps this.
  pub push_back-AreValid :
      (xs : Items D) (v : Json D) → AreValid xs → IsValid v → AreValid (push_back xs v)
  unfolding push_back IsValid
  push_back-AreValid no_items v h hv = (hv, tt)
  push_back-AreValid (item w xs) v h hv = (h.0, push_back-AreValid xs v h.1 hv)

  insert-HoldValid :
      (k : Bytes) (fs : Fields D) (v : Json D)
      → HoldValid fs
      → IsValid v
      → HoldValid (insert k v fs)
  unfolding insert IsValid
  insert-HoldValid k no_fields v h hv = (hv, tt)
  insert-HoldValid k (field j w fs) v h hv = ground (arith, insert-HoldValid k fs v h.1 hv)

  pub insert-IsValid :
      (k : Bytes) (v : Json D) (fs : Fields D)
      → IsValid (object fs)
      → IsValid v
      → IsValid (object (insert k v fs))
  unfolding IsValid
  insert-IsValid k v fs h hv = (insert-IsSorted k v fs h.0, insert-HoldValid k fs v h.1 hv)
