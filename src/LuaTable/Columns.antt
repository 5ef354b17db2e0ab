-- ===== src/LuaTable/Columns.antt =====
-- src/luatable.cpp: the key column, and the cells of a row.
use bitcoin_tui.Base.{
  ℕ, zero, suc, ◌<◌, true, false, not, ◌&&◌, List, [], ◌∷◌, Bytes, same_bytes, same_bytes→eq,
  same_bytes_refl, length, get_elem?, get_or, set, replicate, length-replicate, ◌==◌, ltb,
  if◌then◌else◌, negsuc, some, ◌≡◌, ◌≢◌, refl, sym, ◌∙◌, ap, arith, Bool-cases, inl, inr,
}
use bitcoin_tui.LuaTable.{
  DataOrder, CellValue, LuaTable, ColumnDef, number_column, col_index, has_column,
  ensure_key_column, new_table, no_cell, key_of, fill_cells, row_for,
}

-- The column is there, under its index.
pub record IsColumn (columns : List ColumnDef) (name : Bytes) : Type 0 where
  pub inside : col_index columns name < length columns
  pub column : ColumnDef
  pub at_index : get_elem? columns (col_index columns name) ≡ some column
  pub named : column.name ≡ name

col_index-IsColumn :
    (columns : List ColumnDef) (name : Bytes)
    → has_column name columns ≡ true
    → IsColumn columns name
unfolding col_index has_column
col_index-IsColumn [] name h = absurd (true≢false (sym h))
  where
    true≢false : true ≢ false
    true≢false e = cc
col_index-IsColumn (c ∷ columns) name h = elim (Bool-cases (same_bytes c.name name)) [
  | inl e ↦ record {
    inside = rw e (omega arith);
    column = c;
    at_index = rw e refl;
    named = same_bytes→eq c.name name e;
  }
  | inr e ↦
      let more = col_index-IsColumn columns name (ground (arith, h, e)) in
      let i = more.inside in
      record {
        inside = rw e (omega arith);
        column = more.column;
        at_index = rw e more.at_index;
        named = more.named;
      }
]

-- The column that the constructor adds.
added :
    (key_column : Bytes) (columns : List ColumnDef)
    → IsColumn
        (record { name = key_column; header = []; type = number_column; decimals = negsuc 0 }
          ∷ columns)
        key_column
added key_column columns =
    col_index-IsColumn _ key_column (unfold has_column in rw (same_bytes_refl key_column) refl)

-- A new table has its key column, at the index that it keeps for it, whatever columns it is given.
pub new_table-IsColumn :
    {Data : Type 0} (o : DataOrder Data) (key_column : Bytes) (columns : List ColumnDef)
    → IsColumn (new_table o key_column columns).columns key_column
      × ((new_table o key_column columns).key_index
          ≡ col_index (new_table o key_column columns).columns key_column)
unfolding new_table ensure_key_column
new_table-IsColumn o key_column columns = elim (Bool-cases (has_column key_column columns)) [
  | inl e ↦ (rw e (col_index-IsColumn columns key_column e), refl)
  | inr e ↦ (rw e (added key_column columns), refl)
]

module _ {ℓ} {A : Type ℓ} where
  get_or-set_self : (xs : List A) (i : ℕ) (v d : A) → i < length xs → get_or (set xs i v) i d ≡ v
  get_or-set_self [] i v d h = absurd (omega arith)
  get_or-set_self (x ∷ xs) zero v d h = refl
  get_or-set_self (x ∷ xs) (suc i) v d h = get_or-set_self xs i v d (omega arith)

  get_or-set_ne :
      (xs : List A) (i j : ℕ) (v d : A) → (i == j) ≡ false → get_or (set xs i v) j d ≡ get_or xs j d
  get_or-set_ne [] i j v d h = refl
  get_or-set_ne (x ∷ xs) zero zero v d h = absurd (true≢false h)
    where
      true≢false : true ≢ false
      true≢false e = cc
  get_or-set_ne (x ∷ xs) zero (suc j) v d h = refl
  get_or-set_ne (x ∷ xs) (suc i) zero v d h = refl
  get_or-set_ne (x ∷ xs) (suc i) (suc j) v d h = get_or-set_ne xs i j v d (ground (arith, h))

module _ {Data : Type 0} (o : DataOrder Data) where
  fill_cells-key :
      (columns : List ColumnDef) (ki : ℕ) (named : List (Bytes × CellValue Data))
      (cells : List (CellValue Data)) (d : CellValue Data)
      → get_or (fill_cells o columns ki named cells) ki d ≡ get_or cells ki d
  unfolding fill_cells
  fill_cells-key columns ki [] cells d = refl
  fill_cells-key columns ki ((name, cell) ∷ named) cells d =
      let idx = col_index columns name in
      let written : get_or
            (if ltb idx (length columns) && not (idx == ki) then set cells idx cell else cells) ki d
          ≡ get_or cells ki d =
        ground (arith, get_or-set_ne cells idx ki cell d) in
      fill_cells-key columns ki named _ d ∙ written

  -- Whatever cells it is given, even one under the key column's own name, the row that `update`
  -- stores for a key has that key in its key column.
  pub key_of-row_for :
      (table : LuaTable Data) (key : Data) (named : List (Bytes × CellValue Data)) (epoch : ℕ)
      → table.key_index < length table.columns
      → key_of o table.key_index (record { epoch = epoch; cells = row_for o table key named }) ≡ key
  unfolding key_of row_for
  key_of-row_for table key named epoch h =
      let blank : List (CellValue Data) = replicate (length table.columns) (no_cell o) in
      let there =
        get_or-set_self blank table.key_index (record (no_cell o) { cell_data = key }) (no_cell o)
          (omega (arith, h, length-replicate (length table.columns) (no_cell o))) in
      ap CellValue.cell_data
        (fill_cells-key table.columns table.key_index named _ (no_cell o) ∙ there)
