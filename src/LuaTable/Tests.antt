-- ===== src/LuaTable/Tests.antt =====
-- Runs of the table of src/luatable.cpp, with texts for its data.
use bitcoin_tui.Base.{
  true, false, List, [], ◌∷◌, Bytes, codes, compare_bytes, compare_bytes_refl, compare_bytes-eq,
  compare_bytes-gt, compare_bytes_trans, some, negsuc, ◌≡◌, arith,
}
use bitcoin_tui.LuaTable.{
  DataOrder, IsOrder, CellValue, LuaTable, ColumnDef, string_column, number_column, new_table,
  update, remove, start_refresh, finish_refresh,
}
use bitcoin_tui.LuaTable.Refresh.{IsTable, lookup, new_row, updates}
use bitcoin_tui.LuaTable.Cycle.{operations-IsTable, finish_refresh_lem}

abbrev texts : DataOrder Bytes
texts = record { compare_data = compare_bytes; no_data = [] }

texts-IsOrder : IsOrder texts
texts-IsOrder = record {
  data_refl = compare_bytes_refl;
  data-eq = compare_bytes-eq;
  data-gt = compare_bytes-gt;
  data_trans = compare_bytes_trans;
}

abbrev columns : List ColumnDef
columns =
    record { name = codes "name"; header = []; type = string_column; decimals = negsuc 0 } ∷ []

abbrev table : LuaTable Bytes
table = record {
  columns =
      record { name = codes "id"; header = []; type = number_column; decimals = negsuc 0 }
      ∷ columns;
  key_index = 0;
  rows = [];
  current_epoch = 0;
  header_info = record { cell_data = []; color = []; bold = false };
}

table-IsTable : IsTable texts texts-IsOrder table
table-IsTable = record { ordered = tt; old = tt; inside = omega arith }

abbrev named : List (Bytes × CellValue Bytes)
named = (codes "name", record { cell_data = codes "x"; color = []; bold = true }) ∷ []

finish_refresh_lem_example :
    lookup texts texts-IsOrder
      (finish_refresh texts (
        updates texts texts-IsOrder
          (start_refresh texts table)
          ((codes "7", named) ∷ (codes "8", []) ∷ [])))
      (codes "7")
    ≡ some (new_row texts texts-IsOrder (start_refresh texts table) (codes "7") named)
unfolding compare_bytes
finish_refresh_lem_example =
    finish_refresh_lem texts texts-IsOrder table ((codes "7", named) ∷ (codes "8", []) ∷ [])
      (codes "7") table-IsTable

operations-IsTable_example :
    IsTable texts texts-IsOrder (new_table texts (codes "id") columns)
    × IsTable texts texts-IsOrder (update texts table (codes "7") named)
    × IsTable texts texts-IsOrder (remove texts table (codes "7")).1
    × IsTable texts texts-IsOrder (start_refresh texts table)
    × IsTable texts texts-IsOrder (finish_refresh texts table)
operations-IsTable_example =
    operations-IsTable texts texts-IsOrder (codes "id") columns table (codes "7") named
      table-IsTable
