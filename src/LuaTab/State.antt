-- ===== src/LuaTab/State.antt =====
-- src/tabs/luatab.hpp and src/components/hit_list.hpp: what the keys and clicks of a Lua tab
-- change.
use bitcoin_tui.Base.{
  Option, none, some, ℕ, suc, Bool, List, [], ◌∷◌, Bytes, ltb_ℤ, if◌then◌else◌, ℤ, pos, negsuc,
}
use bitcoin_tui.LuaTable.{LuaTable}

-- The events of FTXUI that the tab tells apart. The flag of a mouse event is whether the left button
-- was pressed.
pub data Event : Type 0 where
  escape return_key backspace arrow_left arrow_right arrow_up arrow_down home end_key : Event
  character : Bytes → Event
  mouse : Bool → ℤ → ℤ → Event
  other_event : Event

-- A table with its selected row, or a summary.
pub data LuaPanel (Data : Type 0) : Type 0 where
  table_panel : LuaTable Data → ℤ → LuaPanel Data
  summary_panel : LuaPanel Data

-- `Box` is ftxui::Box.
pub record LuaPanelRender (Data Box : Type 0) : Type 0 where
  pub panel : LuaPanel Data
  pub scroll_offset : ℤ
  pub scrollable : Bool
  pub row_hits : List (Box × ℤ)

pub record FooterBtnInfo : Type 0 where
  pub id : ℤ
  pub label : Bytes
  pub key : Bytes

pub record InputOverlay : Type 0 where
  pub active : Bool
  pub label : Bytes
  pub buffer : Bytes
  pub cursor : ℤ

pub record QrItem : Type 0 where
  pub label : Bytes
  pub data_text : Bytes

-- The members of LuaTab and LuaTabState that handle_focused_event reads or writes.
pub record LuaTab (Data Box : Type 0) : Type 0 where
  pub lua_panels : List (LuaPanelRender Data Box)
  pub footer_btn_labels : List FooterBtnInfo
  pub show_qr_overlay : Bool
  pub qr_selected : ℤ
  pub qr_items : List QrItem
  pub input_overlay : InputOverlay
  pub focused_panel : ℤ
  pub panel_scrolling : Bool
  pub btn_click_queue : List ℤ
  pub input_result_queue : List (Option Bytes)
  pub select_queue : List (Bytes × Bytes)

module _ {Box : Type 0} (contain : Box → ℤ → ℤ → Bool) where
  -- HitList::hit
  unfoldable pub hit : List (Box × ℤ) → ℤ → ℤ → ℤ
  hit [] x y = negsuc 0
  hit ((box, index) ∷ boxes) x y =
      let more = hit boxes x y in if contain box x y then index else more

  unfoldable pub hit_row : {Data : Type 0} → LuaPanel Data → List (Box × ℤ) → ℤ → ℤ → ℤ
  unfolding hit
  hit_row (table_panel table row) boxes x y = hit boxes x y
  hit_row summary_panel boxes x y = negsuc 0

  -- The first table with a row at (x, y): its index and the row.
  unfoldable pub clicked_row :
      {Data : Type 0} → ℕ → List (LuaPanelRender Data Box) → ℤ → ℤ → Option (ℕ × ℤ)
  clicked_row pi [] x y = none
  clicked_row pi (p ∷ panels) x y =
      let row = hit_row p.panel p.row_hits x y in
      let more = clicked_row (suc pi) panels x y in
      if ltb_ℤ row (pos 0) then more else some (pi, row)
