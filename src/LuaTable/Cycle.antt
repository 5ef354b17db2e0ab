-- ===== src/LuaTable/Cycle.antt =====
-- src/luatable.cpp: start_refresh, updates, finish_refresh.
use Prim.Native.Nat.{Ordering}
use bitcoin_tui.Base.{
  Bool, true, false, List, [], ◌∷◌, Bytes, if◌then◌else◌, Option, none, some, ◌≡◌, refl, sym, ◌∙◌,
  ap, arith, Bool-cases, inl, inr,
}
use mathlib.Core.Option
use bitcoin_tui.LuaTable.{
  DataOrder, IsOrder, CellValue, Row, LuaTable, ColumnDef, new_table, remove, is_row, erase_row,
  find_row, row_for, update, start_refresh, finish_refresh,
}
use bitcoin_tui.LuaTable.Rows.{is_eq, kept_row, find-keep, erase-IsOrdered, keep-IsOrdered}
use bitcoin_tui.LuaTable.Refresh.{
  lookup, IsTable, new_row, lookup-update, update-IsTable, start_refresh-IsTable, updates,
  last_named, find-OldRows, erase-OldRows, keep-OldRows,
}
use bitcoin_tui.LuaTable.Columns.{new_table-IsColumn}

is_eq-eq : (c : Ordering) → is_eq c ≡ true → c ≡ Ordering.eq
is_eq-eq Ordering.eq h = refl
is_eq-eq Ordering.lt h = cc
is_eq-eq Ordering.gt h = cc

module _ {Data : Type 0} (o : DataOrder Data) (lawful : IsOrder o) where
  updates-IsTable :
      (table : LuaTable Data) (us : List (Data × List (Bytes × CellValue Data)))
      → IsTable o lawful table
      → IsTable o lawful (updates o lawful table us)
  updates-IsTable table [] t = t
  updates-IsTable table ((k, named) ∷ us) t =
      updates-IsTable (update o table k named) us (update-IsTable o lawful table k named t)

  updates_shape :
      (table : LuaTable Data) (us : List (Data × List (Bytes × CellValue Data)))
      → ((updates o lawful table us).current_epoch ≡ table.current_epoch)
        × ((updates o lawful table us).key_index ≡ table.key_index)
  unfolding update
  updates_shape table [] = (refl, refl)
  updates_shape table ((k, named) ∷ us) = updates_shape (update o table k named) us

  row_of : LuaTable Data → Data → Option (List (Bytes × CellValue Data)) → Option (Row Data)
  row_of table key none = lookup o lawful table key
  row_of table key (some named) = some (new_row o lawful table key named)

  -- One update more, for a table that differs from `table` in its rows.
  row_of-update :
      (table : LuaTable Data) (rows : List (Row Data)) (key k : Data)
      (named : List (Bytes × CellValue Data)) (before : Option (List (Bytes × CellValue Data)))
      → IsTable o lawful (record table { rows = rows })
      → find_row o table.key_index key rows ≡ row_of table key before
      → lookup o lawful (update o (record table { rows = rows }) k named) key
        ≡ row_of table key (if is_eq (o.compare_data key k) then some named else before)
  unfolding row_for row_of
  row_of-update table rows key k named before t h =
      let step = lookup-update o lawful (record table { rows = rows }) key k named t in
      elim (Bool-cases (is_eq (o.compare_data key k))) [
        | inl e ↦
            let same : key ≡ k = lawful.data-eq key k (is_eq-eq (o.compare_data key k) e) in
            rw e (step ∙ (rw e (ap (λ j. some (new_row o lawful table j named)) (sym same))))
        | inr e ↦ rw e (step ∙ (rw e h))
      ]

  updates-row_of :
      (table : LuaTable Data) (us : List (Data × List (Bytes × CellValue Data)))
      (rows : List (Row Data)) (key : Data) (before : Option (List (Bytes × CellValue Data)))
      → IsTable o lawful (record table { rows = rows })
      → find_row o table.key_index key rows ≡ row_of table key before
      → lookup o lawful (updates o lawful (record table { rows = rows }) us) key
        ≡ row_of table key (last_named o lawful key us before)
  unfolding update
  updates-row_of table [] rows key before t h = h
  updates-row_of table ((k, named) ∷ us) rows key before t h =
      updates-row_of table us (update o (record table { rows = rows }) k named).rows key
        (if is_eq (o.compare_data key k) then some named else before)
        (update-IsTable o lawful (record table { rows = rows }) k named t)
        (row_of-update table rows key k named before t h)

  -- Of the rows after the updates those of the new epoch are kept.
  only_new :
      (table : LuaTable Data) (key : Data) (named : Option (List (Bytes × CellValue Data)))
      → IsTable o lawful table
      → kept_row o lawful table.key_index
          (start_refresh o table).current_epoch
          (row_of (start_refresh o table) key named)
        ≡ Option.map (λ named. new_row o lawful (start_refresh o table) key named) named
  unfolding start_refresh row_of row_for
  only_new table key none t =
      find-OldRows o lawful table.current_epoch table.key_index key table.rows t.old
  only_new table key (some named) t = ground arith

  -- The table that the script leaves when it starts a refresh, updates some keys and finishes the
  -- refresh has, for every key, the row of its last update, and no row for a key that was not
  -- updated: rows from before the refresh are gone.
  pub finish_refresh_lem :
      (table : LuaTable Data) (us : List (Data × List (Bytes × CellValue Data))) (key : Data)
      → IsTable o lawful table
      → lookup o lawful (finish_refresh o (updates o lawful (start_refresh o table) us)) key
        ≡ Option.map
            (λ named. new_row o lawful (start_refresh o table) key named)
            (last_named o lawful key us none)
  unfolding finish_refresh row_of
  finish_refresh_lem table us key t =
      let begun = start_refresh o table in
      let last = updates o lawful begun us in
      let all = updates-IsTable begun us (start_refresh-IsTable o lawful table t) in
      let found =
        updates-row_of begun us begun.rows key none (start_refresh-IsTable o lawful table t) refl in
      let kept = find-keep o lawful last.key_index key last.current_epoch last.rows all.ordered in
      kept
      ∙ (rw (found, (updates_shape begun us).0)
          (only_new table key (last_named o lawful key us none) t))

  remove-IsTable :
      (table : LuaTable Data) (k : Data)
      → IsTable o lawful table
      → IsTable o lawful (remove o table k).1
  unfolding remove
  remove-IsTable table k t = removed (is_row o (find_row o table.key_index k table.rows))
    where
      removed :
          (b : Bool)
          → IsTable o lawful
              (if◌then◌else◌ {A = Bool × LuaTable Data} b
                (true, record table { rows = erase_row o table.key_index k table.rows })
                (false, table)).1
      removed true = record {
        ordered = erase-IsOrdered o lawful table.key_index k table.rows t.ordered;
        old = erase-OldRows o lawful table.current_epoch table.key_index k table.rows t.old;
        inside = t.inside;
      }
      removed false = t

  finish_refresh-IsTable :
      (table : LuaTable Data) → IsTable o lawful table → IsTable o lawful (finish_refresh o table)
  unfolding finish_refresh
  finish_refresh-IsTable table t = record {
    ordered = keep-IsOrdered o lawful table.key_index table.current_epoch table.rows t.ordered;
    old = keep-OldRows o lawful table.current_epoch table.current_epoch table.rows t.old;
    inside = t.inside;
  }

  -- A new table is well formed whatever columns it is given, and so is what any of its operations
  -- leaves of a well-formed table: the rows are in the order of their keys, none twice, none is of
  -- an epoch to come, and the key column is one of the columns.
  pub operations-IsTable :
      (key_column : Bytes) (columns : List ColumnDef) (table : LuaTable Data) (k : Data)
      (named : List (Bytes × CellValue Data))
      → IsTable o lawful table
      → IsTable o lawful (new_table o key_column columns)
        × IsTable o lawful (update o table k named)
        × IsTable o lawful (remove o table k).1
        × IsTable o lawful (start_refresh o table)
        × IsTable o lawful (finish_refresh o table)
  operations-IsTable key_column columns table k named t = (
    new_table-IsTable,
    update-IsTable o lawful table k named t,
    remove-IsTable table k t,
    start_refresh-IsTable o lawful table t,
    finish_refresh-IsTable table t,
  )
    where
      new_table-IsTable : IsTable o lawful (new_table o key_column columns)
      new_table-IsTable =
          let key = (new_table-IsColumn o key_column columns).0 in
          unfold new_table in record { ordered = tt; old = tt; inside = key.inside }
