-- ===== src/Json/Access/Laws.antt =====
-- src/json.hpp: what a write through operator[](key) changes, and what it leaves alone.
use bitcoin_tui.Base.{
  true, false, Bytes, codes, if◌then◌else◌, same_bytes, ◌||◌, ◌∙◌, Option, none, some, Outcome, ok,
  throw, json_exception, ◌≡◌, ◌≢◌, refl, sym, ap, arith, inl, inr, Bool-cases,
}
use bitcoin_tui.Json.Value.{Json, null, object, no_fields, find}
use bitcoin_tui.Json.Valid.{IsValid, find-insert, insert-IsValid}
use bitcoin_tui.Json.Access.{
  or_null, is_some, value_of, index, assign, contains, value, or_default, is_null, is_object,
}

pub true≢false : true ≢ false
true≢false e = cc

module _ {D : Type 0} where
  -- What a reader finds under a key: nothing in a value that is no object.
  entry : Bytes → Json D → Option (Json D)
  entry k (object fs) = find k fs
  entry k _ = none

  entry-assign :
      (key k : Bytes) (v j : Json D) {j' : Json D}
      → assign key v j ≡ ok j'
      → entry k j' ≡ (if same_bytes k key then some v else entry k j)
  unfolding assign entry
  entry-assign key k v null h = ground (arith, find-insert k key v no_fields, find_nil k)
    where
      find_nil : (k : Bytes) → find {D = D} k no_fields ≡ none
      find_nil k = unfold find in refl
  entry-assign key k v (object fs) h = ground (arith, find-insert k key v fs)
  entry-assign key k v _ h = cc

  index-entry : (k : Bytes) (j : Json D) → index k j ≡ or_null (entry k j)
  unfolding index entry
  index-entry k (object fs) = refl
  index-entry k _ = refl

  contains-entry : (k : Bytes) (j : Json D) → contains k j ≡ is_some (entry k j)
  unfolding contains entry is_some
  contains-entry k (object fs) = refl
  contains-entry k _ = refl

  value-entry {ℓ} :
      {A : Type ℓ} (get : Json D → Outcome A) (k : Bytes) (def : A) (j : Json D)
      → value get k def j ≡ value_of get def (entry k j)
  unfolding value entry value_of
  value-entry get k def (object fs) = refl
  value-entry get k def _ = refl

  -- After `j[key] = v` the key is there and reads as `v`, through the const operator[] and, for any
  -- type, through `value`, which keeps its default for null and for a value of another kind; every
  -- other key reads as before, through all three.
  pub assign_reads {ℓ} :
      {A : Type ℓ} (get : Json D → Outcome A) (def : A) (key k : Bytes) (v j : Json D) {j' : Json D}
      → assign key v j ≡ ok j'
      → (contains k j' ≡ (if same_bytes k key then true else contains k j))
        × (index k j' ≡ (if same_bytes k key then v else index k j))
        × (value get k def j' ≡ (
            if same_bytes k key
            then (if is_null v then def else or_default (get v) def)
            else value get k def j))
  unfolding is_some value_of
  assign_reads get def key k v j {j'} h = elim (Bool-cases (same_bytes k key)) [
    | inl e ↦
        let now : entry k j' ≡ some v = entry-assign key k v j h ∙ rw e in
        rw (e, contains-entry k j', index-entry k j', value-entry get k def j', now)
          (refl, refl, refl)
    | inr e ↦
        let old : entry k j' ≡ entry k j = entry-assign key k v j h ∙ rw e in
        rw
          (
            e,
            contains-entry k j',
            index-entry k j',
            value-entry get k def j',
            contains-entry k j,
            index-entry k j,
            value-entry get k def j,
            old,
          )
          (refl, refl, refl)
  ]

  -- A write into an object or into null goes through and keeps what holds of stored values; into
  -- any other value it throws.
  pub assign_lem :
      (P : D → Type 0) (key : Bytes) (v j : Json D)
      → IsValid P j
      → IsValid P v
      → (if is_object j || is_null j
          then ((j' : Json D) × (assign key v j ≡ ok j') × IsValid P j')
          else assign key v j ≡ throw (json_exception (codes "operator[string] on non-object")))
  unfolding assign
  assign_lem P key v null hj hv =
      (_, refl, insert-IsValid P key v no_fields (unfold IsValid in (tt, tt)) hv)
  assign_lem P key v (object fs) hj hv = (_, refl, insert-IsValid P key v fs hj hv)
  assign_lem P key v _ hj hv = refl

  -- A key that a value does not have reads as null.
  index-missing : (key : Bytes) (j : Json D) → contains key j ≡ false → index key j ≡ null
  unfolding is_some
  index-missing key j h =
      rw (index-entry key j) (missing (entry key j) (sym (contains-entry key j) ∙ h))
    where
      missing : (o : Option (Json D)) → is_some o ≡ false → or_null o ≡ null
      missing none h = refl
      missing (some v) h = cc

  pub index-contains :
      (key : Bytes) (j : Json D) → is_null (index key j) ≡ false → contains key j ≡ true
  index-contains key j h = elim (Bool-cases (contains key j)) [
    | inl e ↦ e
    | inr e ↦ absurd (true≢false (sym (ap is_null (index-missing key j e)) ∙ h))
  ]
