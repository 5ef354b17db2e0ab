-- ===== src/LuaTable/Rows.antt =====
-- src/luatable.cpp: the std::set of rows, in order, and what find sees of it.
use Prim.Native.Nat.{Ordering}
use bitcoin_tui.Base.{
  ℕ, Bool, true, false, List, [], ◌∷◌, ◌==◌, if◌then◌else◌, Option, none, some, ◌≡◌, refl, arith,
}
use bitcoin_tui.LuaTable.{
  DataOrder, IsOrder, Row, key_of, find_row, erase_row, insert_row, keep_epoch,
}

abbrev pub is_eq : Ordering → Bool
is_eq Ordering.eq = true
is_eq _ = false

module _ {Data : Type 0} (o : DataOrder Data) (lawful : IsOrder o) (ki : ℕ) where
  open o use {compare_data}
  open lawful use {data_refl, data-eq, data-gt, data_trans}

  abbrev pub AboveKey : Data → List (Row Data) → Type 0
  AboveKey key [] = Unit
  AboveKey key (row ∷ rows) = (compare_data key (key_of o ki row) ≡ Ordering.lt) × AboveKey key rows

  -- The rows of a std::set: each key after the one before, none twice.
  abbrev pub IsOrdered : List (Row Data) → Type 0
  IsOrdered [] = Unit
  IsOrdered (row ∷ rows) = AboveKey (key_of o ki row) rows × IsOrdered rows

  AboveKey-trans :
      (j k : Data) (rows : List (Row Data))
      → compare_data j k ≡ Ordering.lt
      → AboveKey k rows
      → AboveKey j rows
  AboveKey-trans j k [] h a = tt
  AboveKey-trans j k (row ∷ rows) h a =
      (data_trans j k (key_of o ki row) h a.0, AboveKey-trans j k rows h a.1)

  find-above :
      (key : Data) (rows : List (Row Data)) → AboveKey key rows → find_row o ki key rows ≡ none
  unfolding find_row
  find-above key [] a = refl
  find-above key (row ∷ rows) a = ground (arith, a.0, find-above key rows a.1)

  erase-AboveKey :
      (j key : Data) (rows : List (Row Data))
      → AboveKey j rows
      → AboveKey j (erase_row o ki key rows)
  unfolding erase_row
  erase-AboveKey j key [] a = tt
  erase-AboveKey j key (row ∷ rows) a = ground (arith, a.0, a.1, erase-AboveKey j key rows a.1)

  pub erase-IsOrdered :
      (key : Data) (rows : List (Row Data)) → IsOrdered rows → IsOrdered (erase_row o ki key rows)
  unfolding erase_row
  erase-IsOrdered key [] s = tt
  erase-IsOrdered key (row ∷ rows) s =
      ground (
        arith,
        s.0,
        s.1,
        erase-IsOrdered key rows s.1,
        erase-AboveKey (key_of o ki row) key rows s.0,
      )

  insert-AboveKey :
      (j : Data) (new : Row Data) (rows : List (Row Data))
      → compare_data j (key_of o ki new) ≡ Ordering.lt
      → AboveKey j rows
      → AboveKey j (insert_row o ki new rows)
  unfolding insert_row
  insert-AboveKey j new [] h a = (h, tt)
  insert-AboveKey j new (row ∷ rows) h a =
      ground (arith, h, a.0, a.1, insert-AboveKey j new rows h a.1)

  pub insert-IsOrdered :
      (new : Row Data) (rows : List (Row Data))
      → IsOrdered rows
      → IsOrdered (insert_row o ki new rows)
  unfolding insert_row
  insert-IsOrdered new [] s = (tt, tt)
  insert-IsOrdered new (row ∷ rows) s = ground (
    arith,
    s.0,
    s.1,
    insert-IsOrdered new rows s.1,
    insert-AboveKey (key_of o ki row) new rows,
    data-gt (key_of o ki new) (key_of o ki row),
    AboveKey-trans (key_of o ki new) (key_of o ki row) rows,
  )

  keep-AboveKey :
      (j : Data) (epoch : ℕ) (rows : List (Row Data))
      → AboveKey j rows
      → AboveKey j (keep_epoch o epoch rows)
  unfolding keep_epoch
  keep-AboveKey j epoch [] a = tt
  keep-AboveKey j epoch (row ∷ rows) a = ground (arith, a.0, a.1, keep-AboveKey j epoch rows a.1)

  pub keep-IsOrdered :
      (epoch : ℕ) (rows : List (Row Data)) → IsOrdered rows → IsOrdered (keep_epoch o epoch rows)
  unfolding keep_epoch
  keep-IsOrdered epoch [] s = tt
  keep-IsOrdered epoch (row ∷ rows) s = ground (
    arith,
    s.0,
    s.1,
    keep-IsOrdered epoch rows s.1,
    keep-AboveKey (key_of o ki row) epoch rows s.0,
  )

  pub find-erase :
      (key k : Data) (rows : List (Row Data))
      → IsOrdered rows
      → find_row o ki key (erase_row o ki k rows)
        ≡ (if is_eq (compare_data key k) then none else find_row o ki key rows)
  unfolding find_row erase_row
  find-erase key k [] s = ground arith
  find-erase key k (row ∷ rows) s = ground (
    arith,
    find-erase key k rows s.1,
    data-eq key k,
    data-eq k (key_of o ki row),
    data-eq key (key_of o ki row),
    data_refl key,
    find-above (key_of o ki row) rows s.0,
  )

  -- A row whose key is not there yet.
  pub find-insert_row :
      (key : Data) (new : Row Data) (rows : List (Row Data))
      → find_row o ki (key_of o ki new) rows ≡ none
      → find_row o ki key (insert_row o ki new rows)
        ≡ (if is_eq (compare_data key (key_of o ki new)) then some new else find_row o ki key rows)
  unfolding find_row insert_row
  find-insert_row key new [] h = ground arith
  find-insert_row key new (row ∷ rows) h = ground (
    arith,
    find-insert_row key new rows,
    data-eq key (key_of o ki new),
    data-eq key (key_of o ki row),
    data-eq (key_of o ki new) (key_of o ki row),
    data_refl key,
  )

  abbrev pub kept_row : ℕ → Option (Row Data) → Option (Row Data)
  kept_row epoch none = none
  kept_row epoch (some row) = if row.epoch == epoch then some row else none

  pub find-keep :
      (key : Data) (epoch : ℕ) (rows : List (Row Data))
      → IsOrdered rows
      → find_row o ki key (keep_epoch o epoch rows) ≡ kept_row epoch (find_row o ki key rows)
  unfolding find_row keep_epoch
  find-keep key epoch [] s = refl
  find-keep key epoch (row ∷ rows) s = ground (
    arith,
    find-keep key epoch rows s.1,
    data-eq key (key_of o ki row),
    find-above (key_of o ki row) rows s.0,
  )
