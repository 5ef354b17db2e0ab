-- ===== src/LuaTab/Steps.antt =====
-- src/tabs/luatab.cpp: what holds of a Lua tab whatever is pressed, clicked and asked for.
use bitcoin_tui.Base.{
  Bool, List, [], ◌∷◌, ◌++◌, length, length-append, Bytes, Option, inl, inr, ℤ, Outcome, ok, ◌≡◌,
  refl, sym, ap, ◌∙◌, arith,
}
use mathlib.Core.Path.{subst}
use bitcoin_tui.LuaTable.{LuaTable, DataOrder}
use bitcoin_tui.LuaTab.State.{Event, escape, LuaPanelRender, FooterBtnInfo, LuaTab, QrItem}
use bitcoin_tui.LuaTab.Overlay.{
  qr_key, cancel_input, confirm_input, close_qr, text_input, open_qr_overlay,
}
use bitcoin_tui.LuaTab.Nearest.{InFocus}
use bitcoin_tui.LuaTab.Panels.{AllFit, PanelFits, Safe, at_panel-AllFit, at_panel-InFocus}
use bitcoin_tui.LuaTab.{at_panel, handle_focused_event}
use bitcoin_tui.LuaTab.Fits.{WellFormed}
use bitcoin_tui.LuaTab.Handled.{
  qr_key-Keeps, input-Keeps, cancel_input-Keeps, confirm_input-Keeps, Handles,
  handle_focused_event-Handles,
}

module _ {Data Box : Type 0} (o : DataOrder Data) (key_text : LuaTable Data → Data → Bytes)
    (contain : Box → ℤ → ℤ → Bool) where
  -- What happens to a tab: an event, a request of the script, a click on a button of the footer, a panel that the
  -- script adds, and what the script and the drawing do to a panel, to the footer and to the queues.
  pub data Step : LuaTab Data Box → LuaTab Data Box → Type 0 where
    event_handled :
        {tab tab' : LuaTab Data Box} (event : Event) (handled : Bool)
        → handle_focused_event o key_text contain event tab ≡ ok (handled, tab')
        → Step tab tab'
    text_asked :
        {tab : LuaTab Data Box} (label default_val : Bytes)
        → Step tab (text_input label default_val tab)
    qr_asked : {tab : LuaTab Data Box} (items : List QrItem) → Step tab (open_qr_overlay items tab)
    cancel_clicked : {tab : LuaTab Data Box} → Step tab (cancel_input tab)
    confirm_clicked : {tab : LuaTab Data Box} → Step tab (confirm_input tab)
    close_clicked : {tab : LuaTab Data Box} → Step tab (close_qr tab)
    panel_added :
        {tab : LuaTab Data Box} (p : LuaPanelRender Data Box)
        → PanelFits p
        → Step tab (record tab { lua_panels = tab.lua_panels ++ (p ∷ []) })
    panel_changed :
        {tab : LuaTab Data Box} (f : LuaPanelRender Data Box → LuaPanelRender Data Box) (i : ℤ)
        → Safe f
        → Step tab (record tab { lua_panels = at_panel f i tab.lua_panels })
    queues_changed :
        {tab : LuaTab Data Box} (labels : List FooterBtnInfo) (clicks : List ℤ)
        (results : List (Option Bytes)) (selects : List (Bytes × Bytes))
        → Step tab (record tab {
          footer_btn_labels = labels;
          btn_click_queue = clicks;
          input_result_queue = results;
          select_queue = selects;
        })

  pub data Reaches (start : LuaTab Data Box) : LuaTab Data Box → Type 0 where
    at_start : Reaches start start
    step : {tab tab' : LuaTab Data Box} → Reaches start tab → Step tab tab' → Reaches start tab'

  open_qr_overlay-WellFormed :
      (items : List QrItem) (tab : LuaTab Data Box)
      → WellFormed tab
      → WellFormed (open_qr_overlay items tab)
  unfolding open_qr_overlay
  open_qr_overlay-WellFormed [] tab w = w
  open_qr_overlay-WellFormed (item ∷ items) tab w = record {
    input = w.input;
    qr = λ e. (0, refl, omega arith);
    focus = w.focus;
    scrolling = w.scrolling;
    panels = w.panels;
  }

  append-AllFit :
      (panels : List (LuaPanelRender Data Box)) (p : LuaPanelRender Data Box)
      → AllFit panels
      → PanelFits p
      → AllFit (panels ++ (p ∷ []))
  append-AllFit [] p h fits = (fits, tt)
  append-AllFit (q ∷ panels) p (h, hs) fits = (h, append-AllFit panels p hs fits)

  append-InFocus :
      (panels : List (LuaPanelRender Data Box)) (p : LuaPanelRender Data Box) (focused : ℤ)
      → InFocus panels focused
      → InFocus (panels ++ (p ∷ [])) focused
  append-InFocus panels p focused (inl e) = inl e
  append-InFocus panels p focused (inr (k, e, lt)) =
      inr (k, e, omega (arith, lt, length-append panels (p ∷ [])))

  abbrev tab_of : LuaTab Data Box → Outcome (Bool × LuaTab Data Box) → LuaTab Data Box
  tab_of tab (ok out) = out.1
  tab_of tab _ = tab

  Step-WellFormed : {tab tab' : LuaTab Data Box} → Step tab tab' → WellFormed tab → WellFormed tab'
  unfolding qr_key
  Step-WellFormed {tab} {tab'} (event_handled event handled e) w =
      let (out, f, kept) = handle_focused_event-Handles o key_text contain event tab w in
      subst WellFormed (ap (tab_of tab) (sym f ∙ e)) kept
  Step-WellFormed {tab} (text_asked label default_val) w =
      unfold text_input in
      input-Keeps o key_text contain _ tab.input_result_queue tab w
        (λ _. (length default_val, refl, omega arith))
  Step-WellFormed {tab} (qr_asked items) w = open_qr_overlay-WellFormed items tab w
  Step-WellFormed {tab} cancel_clicked w = cancel_input-Keeps o key_text contain tab w
  Step-WellFormed {tab} confirm_clicked w = confirm_input-Keeps o key_text contain tab w
  Step-WellFormed {tab} close_clicked w =
      unfold close_qr in qr_key-Keeps o key_text contain escape tab w
  Step-WellFormed {tab} (panel_added p fits) w = record {
    input = w.input;
    qr = w.qr;
    focus = append-InFocus tab.lua_panels p tab.focused_panel w.focus;
    scrolling = w.scrolling;
    panels = append-AllFit tab.lua_panels p w.panels fits;
  }
  Step-WellFormed {tab} (panel_changed f i safe) w = record {
    input = w.input;
    qr = w.qr;
    focus = at_panel-InFocus f i tab.lua_panels tab.focused_panel w.focus;
    scrolling = w.scrolling;
    panels = at_panel-AllFit f i tab.lua_panels safe w.panels;
  }
  Step-WellFormed (queues_changed labels clicks results selects) w = record {
    input = w.input;
    qr = w.qr;
    focus = w.focus;
    scrolling = w.scrolling;
    panels = w.panels;
  }

  reached-WellFormed :
      {start tab : LuaTab Data Box} → WellFormed start → Reaches start tab → WellFormed tab
  reached-WellFormed w at_start = w
  reached-WellFormed w (step r s) = Step-WellFormed s (reached-WellFormed w r)

  -- Whatever happens to a tab that is well formed, it stays so, and every event is handled without
  -- an exception: the cursor of the text input stands in the text or behind it, the selected QR code
  -- and the highlighted panel exist, rows are selected only in a panel that is highlighted, a
  -- selected row is none or an index, and no panel is scrolled to a negative row. The script and the
  -- drawing may add panels and change them, as long as these keep the last two.
  pub Reaches-WellFormed :
      {start tab : LuaTab Data Box} (event : Event)
      → WellFormed start
      → Reaches start tab
      → WellFormed tab
        × Handles o key_text contain (handle_focused_event o key_text contain event tab)
  Reaches-WellFormed event w r =
      let kept = reached-WellFormed w r in
      (kept, handle_focused_event-Handles o key_text contain event _ kept)
