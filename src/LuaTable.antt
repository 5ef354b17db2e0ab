-- ===== src/LuaTable.antt =====
-- src/luatable.hpp and src/luatable.cpp: the table that a Lua tab fills and the summary.
pub mod Rows
pub mod Columns
pub mod Refresh
pub mod Cycle
mod Tests
use Prim.Native.Nat.{Ordering}
use bitcoin_tui.Base.{
  ℕ, zero, suc, ◌+◌, ◌<◌, Bool, true, false, not, ◌&&◌, List, [], ◌∷◌, map, ◌||◌, Bytes, codes,
  same_bytes, length, get_elem?, get_or, set, replicate, ◌==◌, ltb, if◌then◌else◌, Option, none,
  some, ℤ, pos, negsuc, ltb_ℤ, ◌≡◌,
}

pub data ColumnType : Type 0 where
  string_column number_column datetime_column date_column time_column time_ms_column : ColumnType

unfoldable pub parse_column_type : Bytes → Option ColumnType
parse_column_type s =
    if same_bytes s [] || same_bytes s (codes "string")
    then some string_column
    else if same_bytes s (codes "number")
    then some number_column
    else if same_bytes s (codes "datetime")
    then some datetime_column
    else if same_bytes s (codes "date")
    then some date_column
    else if same_bytes s (codes "time")
    then some time_column
    else if same_bytes s (codes "time_ms") || same_bytes s (codes "timestamp")
    then some time_ms_column
    else none

pub record ColumnDef : Type 0 where
  pub name : Bytes
  pub header : Bytes
  pub type : ColumnType
  pub decimals : ℤ

-- The operator< that std::variant gives CellData, as a comparison, and the empty string that a
-- new cell holds. Doubles are compared as if they had no NaN and one zero.
pub record DataOrder (Data : Type 0) : Type 0 where
  pub compare_data : Data → Data → Ordering
  pub no_data : Data

pub record IsOrder {Data : Type 0} (o : DataOrder Data) : Type 0 where
  pub data_refl : (a : Data) → o.compare_data a a ≡ Ordering.eq
  pub data-eq : (a b : Data) → o.compare_data a b ≡ Ordering.eq → a ≡ b
  pub data-gt : (a b : Data) → o.compare_data a b ≡ Ordering.gt → o.compare_data b a ≡ Ordering.lt
  pub data_trans :
      (a b c : Data)
      → o.compare_data a b ≡ Ordering.lt
      → o.compare_data b c ≡ Ordering.lt
      → o.compare_data a c ≡ Ordering.lt

pub record CellValue (Data : Type 0) : Type 0 where
  pub cell_data : Data
  pub color : Bytes
  pub bold : Bool

pub record Row (Data : Type 0) : Type 0 where
  pub epoch : ℕ
  pub cells : List (CellValue Data)

-- The members of a LuaTable; `rows` is a std::set in the order of its keys.
pub record LuaTable (Data : Type 0) : Type 0 where
  pub columns : List ColumnDef
  pub key_index : ℕ
  pub rows : List (Row Data)
  pub current_epoch : ℕ
  pub header_info : CellValue Data

-- The first column of that name, or the number of columns.
unfoldable pub col_index : List ColumnDef → Bytes → ℕ
col_index [] name = 0
col_index (c ∷ columns) name =
    let more = col_index columns name in if same_bytes c.name name then 0 else suc more

has_column : Bytes → List ColumnDef → Bool
has_column key_column [] = false
has_column key_column (c ∷ columns) = same_bytes c.name key_column || has_column key_column columns

unfoldable pub ensure_key_column : List ColumnDef → Bytes → List ColumnDef
unfolding has_column
ensure_key_column columns key_column =
    if has_column key_column columns
    then columns
    else record { name = key_column; header = []; type = number_column; decimals = negsuc 0 }
      ∷ columns

module _ {Data : Type 0} (o : DataOrder Data) where
  open o use {compare_data, no_data}

  abbrev no_cell : CellValue Data
  no_cell = record { cell_data = no_data; color = []; bold = false }

  unfoldable pub new_table : Bytes → List ColumnDef → LuaTable Data
  unfolding ensure_key_column col_index
  new_table key_column columns =
      let all = ensure_key_column columns key_column in
      record {
        columns = all;
        key_index = col_index all key_column;
        rows = [];
        current_epoch = 0;
        header_info = no_cell;
      }

  -- row.cells[key_index].data
  unfoldable pub key_of : ℕ → Row Data → Data
  key_of key_index row = CellValue.cell_data (get_or row.cells key_index no_cell)

  -- std::set::find, erase and insert. An equal key keeps insert from inserting.
  unfoldable pub find_row : ℕ → Data → List (Row Data) → Option (Row Data)
  unfolding key_of
  find_row ki key [] = none
  find_row ki key (row ∷ rows) = elim (compare_data key (key_of ki row)) [
    | Ordering.eq ↦ some row
    | _ ↦ find_row ki key rows
  ]

  unfoldable pub erase_row : ℕ → Data → List (Row Data) → List (Row Data)
  unfolding key_of
  erase_row ki key [] = []
  erase_row ki key (row ∷ rows) = elim (compare_data key (key_of ki row)) [
    | Ordering.eq ↦ rows
    | _ ↦ row ∷ erase_row ki key rows
  ]

  unfoldable pub insert_row : ℕ → Row Data → List (Row Data) → List (Row Data)
  unfolding key_of
  insert_row ki new [] = new ∷ []
  insert_row ki new (row ∷ rows) = elim (compare_data (key_of ki new) (key_of ki row)) [
    | Ordering.lt ↦ new ∷ row ∷ rows
    | Ordering.eq ↦ row ∷ rows
    | Ordering.gt ↦ row ∷ insert_row ki new rows
  ]

  -- The loop of `update` over the named cells.
  unfoldable pub fill_cells :
      List ColumnDef
      → ℕ
      → List (Bytes × CellValue Data)
      → List (CellValue Data)
      → List (CellValue Data)
  unfolding col_index
  fill_cells columns ki [] cells = cells
  fill_cells columns ki ((name, cell) ∷ named) cells =
      let idx = col_index columns name in
      fill_cells columns ki named
        (if ltb idx (length columns) && not (idx == ki) then set cells idx cell else cells)

  unfoldable pub row_for :
      LuaTable Data → Data → List (Bytes × CellValue Data) → List (CellValue Data)
  unfolding fill_cells
  row_for table key named = fill_cells table.columns table.key_index named (
      set (replicate (length table.columns) no_cell) table.key_index
        (record no_cell { cell_data = key }))

  unfoldable pub update : LuaTable Data → Data → List (Bytes × CellValue Data) → LuaTable Data
  unfolding row_for erase_row insert_row
  update table key named =
      let row : Row Data = record {
        epoch = table.current_epoch;
        cells = row_for table key named;
      } in
      record table {
        rows = insert_row table.key_index row (erase_row table.key_index key table.rows);
      }

  abbrev pub is_row : Option (Row Data) → Bool
  is_row none = false
  is_row (some row) = true

  unfoldable pub remove : LuaTable Data → Data → Bool × LuaTable Data
  unfolding find_row erase_row
  remove table key =
      if is_row (find_row table.key_index key table.rows)
      then (true, record table { rows = erase_row table.key_index key table.rows })
      else (false, table)

  unfoldable pub start_refresh : LuaTable Data → LuaTable Data
  start_refresh table = record table { current_epoch = table.current_epoch + 1 }

  -- std::erase_if on the rows of another epoch.
  unfoldable pub keep_epoch : ℕ → List (Row Data) → List (Row Data)
  keep_epoch epoch [] = []
  keep_epoch epoch (row ∷ rows) =
      if row.epoch == epoch then row ∷ keep_epoch epoch rows else keep_epoch epoch rows

  unfoldable pub finish_refresh : LuaTable Data → LuaTable Data
  unfolding keep_epoch
  finish_refresh table = record table { rows = keep_epoch table.current_epoch table.rows }

  -- keys(), before the cells are formatted.
  unfoldable pub keys : LuaTable Data → List Data
  unfolding key_of
  keys table = map (key_of table.key_index) table.rows

  row_at : ℤ → List (Row Data) → Option (Row Data)
  row_at (negsuc i) rows = none
  row_at (pos i) rows = get_elem? rows i

  -- selected_key(), before the cell is formatted; `idx` is the selected row.
  unfoldable pub selected_key : ℤ → LuaTable Data → Option Data
  unfolding row_at key_of
  selected_key idx table = elim (row_at idx table.rows) [
    | none ↦ none
    | some row ↦ some (key_of table.key_index row)
  ]

  -- The loop of LuaSummary::set.
  unfoldable pub summary_set :
      List ColumnDef → List (Bytes × CellValue Data) → List (CellValue Data) → List (CellValue Data)
  unfolding col_index
  summary_set fields [] values = values
  summary_set fields ((name, cell) ∷ named) values =
      let idx = col_index fields name in
      summary_set fields named (if ltb idx (length fields) then set values idx cell else values)
