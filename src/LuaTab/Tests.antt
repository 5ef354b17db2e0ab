-- ===== src/LuaTab/Tests.antt =====
-- src/tabs/luatab.cpp: a tab with a summary and a table.
use Prim.Native.Nat.{compare}
use bitcoin_tui.Base.{
  ℕ, Bool, true, false, ◌&&◌, [], ◌∷◌, ◌++◌, Bytes, codes, some, ℤ, pos, negsuc, ok, inl, ◌≡◌, refl,
  arith, leb_ℤ,
}
use bitcoin_tui.LuaTable.{LuaTable, DataOrder, number_column}
use bitcoin_tui.LuaTab.State.{
  return_key, backspace, arrow_left, arrow_up, arrow_down, character, mouse, table_panel,
  summary_panel, LuaTab, clicked_row, hit_row, hit,
}
use bitcoin_tui.LuaTab.Overlay.{text_input}
use bitcoin_tui.LuaTab.{at_panel, select_row, key_at, row_of, handle_focused_event}
use bitcoin_tui.LuaTab.Editing.{handle_all, text_input-handle_all}
use bitcoin_tui.LuaTab.Focus.{FirstFrom, LastBefore}
use bitcoin_tui.LuaTab.Highlighted.{Highlights}
use bitcoin_tui.LuaTab.Arrows.{handle_focused_event-Highlights}
use bitcoin_tui.LuaTab.Fits.{WellFormed}
use bitcoin_tui.LuaTab.Steps.{at_start, step, text_asked, Reaches-WellFormed}
use bitcoin_tui.LuaTab.Handled.{Handles}
use bitcoin_tui.LuaTab.Clicks.{clicks, FirstClick, handle_focused_event-twice}

abbrev by_number : DataOrder ℕ
by_number = record { compare_data = compare; no_data = 0 }

-- The rows of the table: 7 and 9.
abbrev peers : LuaTable ℕ
peers = record {
  columns =
      record { name = codes "id"; header = []; type = number_column; decimals = negsuc 0 } ∷ [];
  key_index = 0;
  rows =
      record { epoch = 0; cells = record { cell_data = 7; color = []; bold = false } ∷ [] }
      ∷ record { epoch = 0; cells = record { cell_data = 9; color = []; bold = false } ∷ [] }
      ∷ [];
  current_epoch = 0;
  header_info = record { cell_data = 0; color = []; bold = false };
}

abbrev text_of_key : LuaTable ℕ → ℕ → Bytes
text_of_key table key = key ∷ []

-- A box is the number of a line of the screen.
abbrev on_line : ℤ → ℤ → ℤ → Bool
on_line line x y = leb_ℤ line y && leb_ℤ y line

abbrev tab : LuaTab ℕ ℤ
tab = record {
  lua_panels =
      record { panel = summary_panel; scroll_offset = pos 0; scrollable = false; row_hits = [] }
      ∷ record {
        panel = table_panel peers (negsuc 0);
        scroll_offset = pos 0;
        scrollable = false;
        row_hits = (pos 4, pos 0) ∷ (pos 5, pos 1) ∷ [];
      }
      ∷ [];
  footer_btn_labels = [];
  show_qr_overlay = false;
  qr_selected = pos 0;
  qr_items = [];
  input_overlay = record { active = false; label = []; buffer = []; cursor = pos 0 };
  focused_panel = negsuc 0;
  panel_scrolling = false;
  btn_click_queue = [];
  input_result_queue = [];
  select_queue = [];
}

-- The letter é has two bytes, and Backspace takes one of them.
text_input-handle_all_example :
    handle_all by_number text_of_key on_line
      (arrow_left ∷ character (195 ∷ 169 ∷ []) ∷ backspace ∷ return_key ∷ [])
      (text_input (codes "name") (codes "ab") tab)
    ≡ ok (record tab {
      input_overlay = record { active = false; label = codes "name"; buffer = []; cursor = pos 2 };
      input_result_queue = some (97 ∷ 195 ∷ 98 ∷ []) ∷ [];
    })
text_input-handle_all_example =
    text_input-handle_all by_number text_of_key on_line (codes "name") (codes "ab")
      (arrow_left ∷ character (195 ∷ 169 ∷ []) ∷ backspace ∷ []) tab (tt, (tt, (tt, tt)))

handle_focused_event-Highlights_example :
    Highlights tab.lua_panels
      (FirstFrom tab.lua_panels 0 (negsuc 0))
      (handle_focused_event by_number text_of_key on_line arrow_down tab)
    × Highlights tab.lua_panels
        (LastBefore tab.lua_panels 2 (negsuc 0))
        (handle_focused_event by_number text_of_key on_line arrow_up tab)
handle_focused_event-Highlights_example =
    handle_focused_event-Highlights by_number text_of_key on_line tab
      (record { no_input = refl; no_qr = refl; no_scrolling = refl }) (inl refl)

tab-WellFormed : WellFormed tab
tab-WellFormed = record {
  input = λ e. absurd (cc);
  qr = λ e. absurd (cc);
  focus = inl refl;
  scrolling = λ e. absurd (cc);
  panels = (
    record { row = tt; offset = omega arith },
    (record { row = omega arith; offset = omega arith }, tt),
  );
}

Reaches-WellFormed_example :
    WellFormed (text_input (codes "name") (codes "ab") tab)
    × Handles by_number text_of_key on_line (
        handle_focused_event by_number text_of_key on_line backspace
          (text_input (codes "name") (codes "ab") tab))
Reaches-WellFormed_example =
    Reaches-WellFormed by_number text_of_key on_line backspace tab-WellFormed
      (step at_start (text_asked (codes "name") (codes "ab")))

line_five : clicked_row on_line 0 tab.lua_panels (pos 3) (pos 5) ≡ some (1, pos 1)
unfolding clicked_row hit_row hit
line_five = refl

handle_focused_event-twice_example :
    (first second : LuaTab ℕ ℤ) × (handle_focused_event by_number text_of_key on_line
        (mouse true (pos 3) (pos 5))
        tab
      ≡ ok (true, first))
    × (first.focused_panel ≡ pos 1)
    × (row_of by_number text_of_key on_line 1 first.lua_panels ≡ some (pos 1))
    × FirstClick by_number text_of_key on_line 1 (pos 1) tab first
    × (handle_focused_event by_number text_of_key on_line (mouse true (pos 3) (pos 5)) first
        ≡ ok (true, second))
    × (second.select_queue
        ≡ first.select_queue
          ++ clicks by_number text_of_key on_line (
              key_at by_number text_of_key on_line
                (pos 1)
                (at_panel (select_row (pos 1)) (pos 1) first.lua_panels)))
handle_focused_event-twice_example =
    handle_focused_event-twice by_number text_of_key on_line tab (pos 3) (pos 5) 1 (pos 1) refl refl
      line_five
