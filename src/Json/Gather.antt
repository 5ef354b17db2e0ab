-- ===== src/Json/Gather.antt =====
-- src/json.hpp: what the parser's loops gather in `aval_` and `oval_`: the elements in their order,
-- and the members of a map whose keys come in order.
use bitcoin_tui.Base.{◌≡◌, refl, ap, ◌∙◌, sym, Bytes, compare_bytes-lt}
use bitcoin_tui.Json.Value.{
  Json, Items, Fields, no_items, item, no_fields, field, push_back, insert,
}
use bitcoin_tui.Json.Valid.{Above, IsSorted}

module _ {D : Type 0} where
  -- What the loops have gathered when the rest of the array or object is read.
  unfoldable pub push_all : Items D → Items D → Items D
  push_all aval no_items = aval
  push_all aval (item v xs) = push_all (push_back aval v) xs

  unfoldable pub insert_all : Fields D → Fields D → Fields D
  insert_all oval no_fields = oval
  insert_all oval (field k v fs) = insert_all (insert k v oval) fs

  append_items : Items D → Items D → Items D
  append_items no_items ys = ys
  append_items (item v xs) ys = item v (append_items xs ys)

  append_items-push_back :
      (xs ys : Items D) (v : Json D)
      → append_items (push_back xs v) ys ≡ append_items xs (item v ys)
  unfolding append_items push_back
  append_items-push_back no_items ys v = refl
  append_items-push_back (item w xs) ys v = ap (item w) (append_items-push_back xs ys v)

  push_all-append : (aval xs : Items D) → push_all aval xs ≡ append_items aval xs
  unfolding push_all append_items
  push_all-append no_items no_items = refl
  push_all-append (item w aval) no_items = ap (item w) (push_all-append aval no_items)
  push_all-append aval (item v xs) =
      push_all-append (push_back aval v) xs ∙ append_items-push_back aval xs v

  pub push_all_lem : (xs : Items D) → push_all no_items xs ≡ xs
  unfolding append_items
  push_all_lem xs = push_all-append no_items xs

  append_fields : Fields D → Fields D → Fields D
  append_fields no_fields ys = ys
  append_fields (field k v xs) ys = field k v (append_fields xs ys)

  append_fields-nil : (xs : Fields D) → append_fields xs no_fields ≡ xs
  unfolding append_fields
  append_fields-nil no_fields = refl
  append_fields-nil (field k v xs) = ap (field k v) (append_fields-nil xs)

  append_fields_assoc :
      (xs ys zs : Fields D)
      → append_fields (append_fields xs ys) zs ≡ append_fields xs (append_fields ys zs)
  unfolding append_fields
  append_fields_assoc no_fields ys zs = refl
  append_fields_assoc (field k v xs) ys zs = ap (field k v) (append_fields_assoc xs ys zs)

  -- Every key of the first comes before every key of the second.
  abbrev Below : Fields D → Fields D → Type 0
  Below no_fields fs = Unit
  Below (field j w m) fs = Above j fs × Below m fs

  insert_last :
      (m fs : Fields D) (k : Bytes) (v : Json D)
      → Below m (field k v fs)
      → insert k v m ≡ append_fields m (field k v no_fields)
  unfolding insert append_fields
  insert_last no_fields fs k v b = refl
  insert_last (field j w m) fs k v b =
      rw (compare_bytes-lt j k b.0.0, insert) (ap (field j w) (insert_last m fs k v b.1))

  Below-append :
      (m fs : Fields D) (k : Bytes) (v : Json D)
      → Below m (field k v fs)
      → Above k fs
      → Below (append_fields m (field k v no_fields)) fs
  unfolding append_fields
  Below-append no_fields fs k v b a = (a, tt)
  Below-append (field j w m) fs k v b a = (b.0.1, Below-append m fs k v b.1 a)

  insert_all-append :
      (m fs : Fields D) → Below m fs → IsSorted fs → insert_all m fs ≡ append_fields m fs
  unfolding insert_all
  insert_all-append m no_fields b s = sym (append_fields-nil m)
  insert_all-append m (field k v fs) b s = rw (insert_last m fs k v b) (
      insert_all-append (append_fields m (field k v no_fields)) fs (Below-append m fs k v b s.0) s.1
      ∙ (append_fields_assoc m (field k v no_fields) fs ∙ unfold append_fields in refl))

  pub insert_all_lem : (fs : Fields D) → IsSorted fs → insert_all no_fields fs ≡ fs
  unfolding append_fields
  insert_all_lem fs s = insert_all-append no_fields fs tt s
