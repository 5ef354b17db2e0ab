-- ===== src/LuaTable/Refresh.antt =====
-- src/luatable.cpp: updates one by one, and a refresh that replaces the table's rows.
use bitcoin_tui.Base.{
  ℕ, ◌+◌, ◌≤◌, ◌<◌, Bool, true, false, List, [], ◌∷◌, Bytes, length, if◌then◌else◌, Option, none,
  some, ◌≡◌, refl, ◌∙◌, arith,
}
use bitcoin_tui.LuaTable.{
  DataOrder, IsOrder, CellValue, Row, LuaTable, key_of, find_row, erase_row, insert_row, keep_epoch,
  row_for, update, remove, start_refresh, is_row,
}
use bitcoin_tui.LuaTable.Rows.{
  is_eq, IsOrdered, erase-IsOrdered, insert-IsOrdered, find-erase, find-insert_row, kept_row,
}
use bitcoin_tui.LuaTable.Columns.{key_of-row_for}

module _ {Data : Type 0} (o : DataOrder Data) (lawful : IsOrder o) where
  -- The row that the table has for a key.
  abbrev pub lookup : LuaTable Data → Data → Option (Row Data)
  lookup table key = find_row o table.key_index key table.rows

  abbrev pub OldRows : ℕ → List (Row Data) → Type 0
  OldRows epoch [] = Unit
  OldRows epoch (row ∷ rows) = (row.epoch ≤ epoch) × OldRows epoch rows

  -- The rows are in order, none of them from an epoch to come, and the key column is there.
  pub record IsTable (table : LuaTable Data) : Type 0 where
    pub ordered : IsOrdered o lawful table.key_index table.rows
    pub old : OldRows table.current_epoch table.rows
    pub inside : table.key_index < length table.columns

  abbrev pub new_row : LuaTable Data → Data → List (Bytes × CellValue Data) → Row Data
  new_row table key named = record {
    epoch = table.current_epoch;
    cells = row_for o table key named;
  }

  find-replaced :
      (ki : ℕ) (key k : Data) (row : Row Data) (rows : List (Row Data))
      → key_of o ki row ≡ k
      → IsOrdered o lawful ki rows
      → find_row o ki key (insert_row o ki row (erase_row o ki k rows))
        ≡ (if is_eq (o.compare_data key k) then some row else find_row o ki key rows)
  find-replaced ki key k row rows e s =
      let erased = find-erase o lawful ki k k rows s ∙ rw (lawful.data_refl k) refl in
      let gone : find_row o ki (key_of o ki row) (erase_row o ki k rows) ≡ none = rw e erased in
      let inserted = find-insert_row o lawful ki key row (erase_row o ki k rows) gone in
      let before = find-erase o lawful ki key k rows s in
      rw (e, before) at inserted
      ∙ same (is_eq (o.compare_data key k)) (some row) (find_row o ki key rows)
    where
      same :
          (b : Bool) (x y : Option (Row Data))
          → (if b then x else (if b then none else y)) ≡ (if b then x else y)
      same true x y = refl
      same false x y = refl

  -- After an update of a key the table has the new row for it, and for every other key what it had.
  pub lookup-update :
      (table : LuaTable Data) (key k : Data) (named : List (Bytes × CellValue Data))
      → IsTable table
      → lookup (update o table k named) key
        ≡ (if is_eq (o.compare_data key k) then some (new_row table k named) else lookup table key)
  unfolding update
  lookup-update table key k named t =
      find-replaced table.key_index key k (new_row table k named) table.rows
        (key_of-row_for o table k named table.current_epoch t.inside) t.ordered

  -- The same for a removal, which says whether there was a row.
  pub lookup-remove :
      (table : LuaTable Data) (key k : Data)
      → IsTable table
      → (lookup (remove o table k).1 key
          ≡ (if is_eq (o.compare_data key k) then none else lookup table key))
        × ((remove o table k).0 ≡ is_row o (lookup table k))
  unfolding remove
  lookup-remove table key k t = removed (lookup table k) refl
    where
      removed :
          (r : Option (Row Data))
          → lookup table k ≡ r
          → (lookup
                (if◌then◌else◌ {A = Bool × LuaTable Data}
                  (is_row o r)
                  (true, record table { rows = erase_row o table.key_index k table.rows })
                  (false, table)).1
                key
              ≡ (if is_eq (o.compare_data key k) then none else lookup table key))
            × ((if◌then◌else◌ {A = Bool × LuaTable Data}
                  (is_row o r)
                  (true, record table { rows = erase_row o table.key_index k table.rows })
                  (false, table)).0
                ≡ is_row o r)
      removed none e = (ground (arith, e, lawful.data-eq key k), refl)
      removed (some row) e = (find-erase o lawful table.key_index key k table.rows t.ordered, refl)

  pub erase-OldRows :
      (epoch ki : ℕ) (k : Data) (rows : List (Row Data))
      → OldRows epoch rows
      → OldRows epoch (erase_row o ki k rows)
  unfolding erase_row
  erase-OldRows epoch ki k [] h = tt
  erase-OldRows epoch ki k (row ∷ rows) h =
      ground (arith, h.0, h.1, erase-OldRows epoch ki k rows h.1)

  insert-OldRows :
      (epoch ki : ℕ) (new : Row Data) (rows : List (Row Data))
      → new.epoch ≤ epoch
      → OldRows epoch rows
      → OldRows epoch (insert_row o ki new rows)
  unfolding insert_row
  insert-OldRows epoch ki new [] n h = (n, tt)
  insert-OldRows epoch ki new (row ∷ rows) n h =
      ground (arith, n, h.0, h.1, insert-OldRows epoch ki new rows n h.1)

  pub keep-OldRows :
      (epoch e : ℕ) (rows : List (Row Data))
      → OldRows epoch rows
      → OldRows epoch (keep_epoch o e rows)
  unfolding keep_epoch
  keep-OldRows epoch e [] h = tt
  keep-OldRows epoch e (row ∷ rows) h = ground (arith, h.0, h.1, keep-OldRows epoch e rows h.1)

  OldRows-suc : (epoch : ℕ) (rows : List (Row Data)) → OldRows epoch rows → OldRows (epoch + 1) rows
  OldRows-suc epoch [] h = tt
  OldRows-suc epoch (row ∷ rows) h =
      let (now, later) = h in (omega arith, OldRows-suc epoch rows later)

  -- A row that is found is as old as all.
  pub find-OldRows :
      (epoch ki : ℕ) (k : Data) (rows : List (Row Data))
      → OldRows epoch rows
      → kept_row o lawful ki (epoch + 1) (find_row o ki k rows) ≡ none
  unfolding find_row
  find-OldRows epoch ki k [] h = refl
  find-OldRows epoch ki k (row ∷ rows) h = ground (arith, h.0, find-OldRows epoch ki k rows h.1)

  -- Every operation keeps the table well formed.
  pub update-IsTable :
      (table : LuaTable Data) (k : Data) (named : List (Bytes × CellValue Data))
      → IsTable table
      → IsTable (update o table k named)
  unfolding update
  update-IsTable table k named t =
      let ki = table.key_index in
      let rest = erase_row o ki k table.rows in
      record {
        ordered =
            insert-IsOrdered o lawful ki (new_row table k named) rest
              (erase-IsOrdered o lawful ki k table.rows t.ordered);
        old =
            insert-OldRows table.current_epoch ki (new_row table k named) rest (omega arith)
              (erase-OldRows table.current_epoch ki k table.rows t.old);
        inside = t.inside;
      }

  pub start_refresh-IsTable :
      (table : LuaTable Data) → IsTable table → IsTable (start_refresh o table)
  unfolding start_refresh
  start_refresh-IsTable table t = record {
    ordered = t.ordered;
    old = OldRows-suc table.current_epoch table.rows t.old;
    inside = t.inside;
  }

  -- Updates one after the other, and the cells that the last update of a key named.
  abbrev pub updates : LuaTable Data → List (Data × List (Bytes × CellValue Data)) → LuaTable Data
  updates table [] = table
  updates table ((k, named) ∷ us) = updates (update o table k named) us

  abbrev pub last_named :
      Data
      → List (Data × List (Bytes × CellValue Data))
      → Option (List (Bytes × CellValue Data))
      → Option (List (Bytes × CellValue Data))
  last_named key [] before = before
  last_named key ((k, named) ∷ us) before =
      last_named key us (if is_eq (o.compare_data key k) then some named else before)
