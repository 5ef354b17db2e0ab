-- ===== src/LuaTab/Clicked.antt =====
-- src/tabs/luatab.cpp: a click on the row of a table selects it.
use bitcoin_tui.Base.{
  ℕ, suc, ◌+◌, Bool, true, false, List, [], ◌∷◌, Bytes, codes, if◌then◌else◌, ltb_ℤ, Option, none,
  some, inl, inr, ℤ, pos, ok, ◌≡◌, refl, sym, ap, ◌∙◌, arith,
}
use bitcoin_tui.LuaTable.{LuaTable, DataOrder}
use bitcoin_tui.LuaTab.State.{
  LuaPanel, table_panel, summary_panel, LuaPanelRender, LuaTab, mouse, hit_row, clicked_row,
}
use bitcoin_tui.LuaTab.Nearest.{true≢false}
use bitcoin_tui.LuaTab.Overlay.{input_key, qr_key}
use bitcoin_tui.LuaTab.Keys.{if_some}
use bitcoin_tui.LuaTab.{
  select_row, change, at_panel, key_at, row_of, activate, emplace, clicked, click_row, with_hit,
  mouse_key, panels_key, handle_focused_event,
}
use bitcoin_tui.LuaTab.Hits.{same_index, clicked_row-change}

module _ {Data Box : Type 0} (o : DataOrder Data) (key_text : LuaTable Data → Data → Bytes)
    (contain : Box → ℤ → ℤ → Bool) where
  row_of-select_row :
      (row : ℤ) (p : LuaPanelRender Data Box) (panels : List (LuaPanelRender Data Box)) (x y : ℤ)
      → ltb_ℤ (hit_row contain p.panel p.row_hits x y) (pos 0) ≡ false
      → row_of o key_text contain 0 (select_row row p ∷ panels) ≡ some row
  unfolding row_of select_row hit_row
  row_of-select_row row p panels x y h = by_kind p.panel refl
    where
      by_kind :
          (q : LuaPanel Data)
          → p.panel ≡ q
          → row_of o key_text contain 0 (select_row row p ∷ panels) ≡ some row
      by_kind (table_panel table cur) e = rw e refl
      by_kind summary_panel e =
          absurd (
            true≢false refl
              (ap (λ q. ltb_ℤ (hit_row contain q p.row_hits x y) (pos 0)) (sym e) ∙ h))

  row_of-change :
      (pi : ℕ) (panels : List (LuaPanelRender Data Box)) (x y : ℤ) (k : ℕ) (row : ℤ)
      → clicked_row contain pi panels x y ≡ some (k, row)
      → (j : ℕ) × (k ≡ pi + j)
        × (row_of o key_text contain j (change (select_row row) j panels) ≡ some row)
  unfolding clicked_row change row_of
  row_of-change pi [] x y k row e = absurd (cc)
  row_of-change pi (p ∷ panels) x y k row e =
      elim (if_some (ltb_ℤ (hit_row contain p.panel p.row_hits x y) (pos 0)) e) [
        | inl (lt, here) ↦
            let (j, same, more) = row_of-change (suc pi) panels x y k row here in
            (suc j, omega (arith, same), more)
        | inr (ge, same, found) ↦ (0, omega (arith, same), row_of-select_row row p panels x y ge)
      ]

  -- A tab on which that row has been clicked.
  pub record IsClicked (pi : ℕ) (row x y : ℤ) (tab : LuaTab Data Box) : Type 0 where
    pub no_input : tab.input_overlay.active ≡ false
    pub no_qr : tab.show_qr_overlay ≡ false
    pub hit_again : clicked_row contain 0 tab.lua_panels x y ≡ some (pi, row)
    pub focused : tab.focused_panel ≡ pos pi
    pub scrolling : tab.panel_scrolling ≡ true
    pub selected : row_of o key_text contain pi tab.lua_panels ≡ some row

  pub activate-IsClicked :
      (again : Bool) (pi : ℕ) (row x y : ℤ) (tab : LuaTab Data Box)
      → IsClicked pi row x y tab
      → IsClicked pi row x y (activate o key_text contain again pi tab)
  unfolding activate
  activate-IsClicked false pi row x y tab c = c
  activate-IsClicked true pi row x y tab c =
      by_key (key_at o key_text contain (pos pi) tab.lua_panels)
    where
      by_key :
          (key : Option Bytes)
          → IsClicked pi row x y (emplace o key_text contain key (codes "click") tab)
      by_key none = unfold emplace in c
      by_key (some key) =
          unfold emplace in
          record {
            no_input = c.no_input;
            no_qr = c.no_qr;
            hit_again = c.hit_again;
            focused = c.focused;
            scrolling = c.scrolling;
            selected = c.selected;
          }

  pub clicked-IsClicked :
      (pi : ℕ) (row x y : ℤ) (tab : LuaTab Data Box)
      → tab.input_overlay.active ≡ false
      → tab.show_qr_overlay ≡ false
      → clicked_row contain 0 tab.lua_panels x y ≡ some (pi, row)
      → IsClicked pi row x y (clicked pi row tab)
  unfolding at_panel
  clicked-IsClicked pi row x y tab i q e =
      let (j, same, at) = row_of-change 0 tab.lua_panels x y pi row e in
      record {
        no_input = i;
        no_qr = q;
        hit_again = clicked_row-change contain row pi 0 tab.lua_panels x y ∙ e;
        focused = refl;
        scrolling = refl;
        selected = rw (same_index pi j same) at;
      }

  pub handle_focused_event-click_row :
      (pi : ℕ) (row x y : ℤ) (tab : LuaTab Data Box)
      → tab.input_overlay.active ≡ false
      → tab.show_qr_overlay ≡ false
      → clicked_row contain 0 tab.lua_panels x y ≡ some (pi, row)
      → handle_focused_event o key_text contain (mouse true x y) tab
        ≡ ok (true, click_row o key_text contain pi row tab)
  handle_focused_event-click_row pi row x y tab i q e =
      unfold handle_focused_event panels_key mouse_key with_hit in
      (ap
          (λ b.
            if b
            then input_key (mouse true x y) tab
            else if tab.show_qr_overlay
            then ok (qr_key (mouse true x y) tab)
            else ok (panels_key o key_text contain (mouse true x y) tab))
          i
        ∙ ap
            (λ b.
              if b
              then ok (qr_key (mouse true x y) tab)
              else ok (panels_key o key_text contain (mouse true x y) tab))
            q
        ∙ ap (λ hit. ok (with_hit o key_text contain hit tab)) e)
