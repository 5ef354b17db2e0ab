-- ===== src/LuaTab/Keys.antt =====
-- src/tabs/luatab.cpp: what the keys and the mouse keep of a Lua tab behind the overlays.
use bitcoin_tui.Base.{
  nonneg, ℕ, suc, ◌+◌, ◌<◌, ◌≤ℤ◌, ◌==◌, codes, same_bytes, Bool, true, false, ◌&&◌, List, [], ◌∷◌,
  length, Bytes, if◌then◌else◌, leb_ℤ, ltb_ℤ, Option, none, some, ◌⊎◌, inl, inr, ℤ, pos, negsuc,
  ◌≡◌, refl, arith,
}
use mathlib.Core.Path.{subst}
use bitcoin_tui.LuaTable.{LuaTable, DataOrder}
use bitcoin_tui.LuaTab.State.{
  Event, escape, return_key, backspace, arrow_left, arrow_right, arrow_up, arrow_down, home,
  end_key, character, mouse, other_event, LuaPanelRender, LuaTab, hit_row, clicked_row,
}
use bitcoin_tui.LuaTab.Panels.{at_panel-AllFit, at_panel-InFocus, select_row-Safe}
use bitcoin_tui.LuaTab.{
  button_of, select_row, focus_key, scroll_key, key_at, emplace, clicked, click_row, mouse_key,
  fired, enter_key, space_key, activate, with_hit, with_button, panel_key, navigate, panels_key,
}
use bitcoin_tui.LuaTab.Fits.{
  WellFormed, Keeps, Keeps-if, scroll_key-Keeps, focus_key-Keeps, unfocused_key-Keeps,
  toggle_scrolling-Keeps,
}

pub if_some :
    (b : Bool) {more : Option (ℕ × ℤ)} {pi k : ℕ} {r row : ℤ}
    → (if b then more else some (pi, r)) ≡ some (k, row)
    → ((b ≡ true) × (more ≡ some (k, row))) ⊎ ((b ≡ false) × (pi ≡ k) × (r ≡ row))
if_some true e = inl (refl, e)
if_some false e = inr (refl, cc, cc)

not_negative : (i : ℤ) → ltb_ℤ i (pos 0) ≡ false → negsuc 0 ≤ℤ i
not_negative (pos i) h = omega arith
not_negative (negsuc i) h = ground (arith, h)

module _ {Data Box : Type 0} (o : DataOrder Data) (key_text : LuaTable Data → Data → Bytes)
    (contain : Box → ℤ → ℤ → Bool) where
  scroll_or_focus :
      (event : Event) (tab : LuaTab Data Box)
      → WellFormed tab
      → leb_ℤ (pos 0) tab.focused_panel ≡ true
      → Keeps (
          if tab.panel_scrolling && ltb_ℤ tab.focused_panel (pos (length tab.lua_panels))
          then scroll_key event tab
          else focus_key event tab)
  scroll_or_focus event tab w h =
      Keeps-if (tab.panel_scrolling && ltb_ℤ tab.focused_panel (pos (length tab.lua_panels))) _ _
        (λ s. scroll_key-Keeps event tab w) (λ f. focus_key-Keeps event tab w h)

  emplace-Keeps :
      (key : Option Bytes) (trigger : Bytes) (tab : LuaTab Data Box)
      → WellFormed tab
      → WellFormed (emplace o key_text contain key trigger tab)
  unfolding emplace
  emplace-Keeps none trigger tab w = w
  emplace-Keeps (some key) trigger tab w = record {
    input = w.input;
    qr = w.qr;
    focus = w.focus;
    scrolling = w.scrolling;
    panels = w.panels;
  }

  enter_key-Keeps :
      (key : Option Bytes) (tab : LuaTab Data Box)
      → WellFormed tab
      → leb_ℤ (pos 0) tab.focused_panel ≡ true
      → Keeps (enter_key o key_text contain key tab)
  unfolding enter_key
  enter_key-Keeps (some key) tab w h = emplace-Keeps (some key) (codes "enter") tab w
  enter_key-Keeps none tab w h = toggle_scrolling-Keeps tab w h

  space_key-Keeps :
      (key : Option Bytes) (tab : LuaTab Data Box)
      → WellFormed tab
      → Keeps (space_key o key_text contain key tab)
  unfolding space_key
  space_key-Keeps (some key) tab w = emplace-Keeps (some key) (codes "space") tab w
  space_key-Keeps none tab w = w

  panel_key-Keeps :
      (event : Event) (tab : LuaTab Data Box)
      → WellFormed tab
      → leb_ℤ (pos 0) tab.focused_panel ≡ true
      → Keeps (panel_key o key_text contain event tab)
  unfolding panel_key
  panel_key-Keeps return_key tab w h = enter_key-Keeps (fired o key_text contain tab) tab w h
  panel_key-Keeps (character ch) tab w h =
      Keeps-if (same_bytes ch (codes " ")) _ _
        (λ space. space_key-Keeps (fired o key_text contain tab) tab w) (λ no_space. w)
  panel_key-Keeps escape tab w h = scroll_or_focus escape tab w h
  panel_key-Keeps backspace tab w h = scroll_or_focus backspace tab w h
  panel_key-Keeps arrow_left tab w h = scroll_or_focus arrow_left tab w h
  panel_key-Keeps arrow_right tab w h = scroll_or_focus arrow_right tab w h
  panel_key-Keeps arrow_up tab w h = scroll_or_focus arrow_up tab w h
  panel_key-Keeps arrow_down tab w h = scroll_or_focus arrow_down tab w h
  panel_key-Keeps home tab w h = scroll_or_focus home tab w h
  panel_key-Keeps end_key tab w h = scroll_or_focus end_key tab w h
  panel_key-Keeps (mouse left x y) tab w h = scroll_or_focus (mouse left x y) tab w h
  panel_key-Keeps other_event tab w h = scroll_or_focus other_event tab w h

  navigate-Keeps :
      (event : Event) (tab : LuaTab Data Box)
      → WellFormed tab
      → Keeps (navigate o key_text contain event tab)
  unfolding navigate
  navigate-Keeps event tab w =
      Keeps-if (length tab.lua_panels == 0) _ _ (λ none_here. w)
        (λ some_here.
          Keeps-if (leb_ℤ (pos 0) tab.focused_panel) _ _ (λ ge. panel_key-Keeps event tab w ge)
            (λ lt. unfocused_key-Keeps event tab w))

  activate-Keeps :
      (again : Bool) (pi : ℕ) (now : LuaTab Data Box)
      → WellFormed now
      → WellFormed (activate o key_text contain again pi now)
  unfolding activate
  activate-Keeps true pi now w =
      emplace-Keeps (key_at o key_text contain (pos pi) now.lua_panels) (codes "click") now w
  activate-Keeps false pi now w = w

  click_row-Keeps :
      (pi : ℕ) (row : ℤ) (tab : LuaTab Data Box)
      → WellFormed tab
      → pi < length tab.lua_panels
      → negsuc 0 ≤ℤ row
      → WellFormed (click_row o key_text contain pi row tab)
  unfolding click_row
  click_row-Keeps pi row tab w lt ge =
      let now : WellFormed (clicked pi row tab) = record {
        input = w.input;
        qr = w.qr;
        focus =
            at_panel-InFocus (select_row row) (pos pi) tab.lua_panels (pos pi) (inr (pi, refl, lt));
        scrolling = λ e. nonneg pi;
        panels =
            at_panel-AllFit (select_row row) (pos pi) tab.lua_panels (select_row-Safe row ge)
              w.panels;
      } in
      activate-Keeps _ pi (clicked pi row tab) now

  clicked_row-InRange :
      (pi : ℕ) (panels : List (LuaPanelRender Data Box)) (x y : ℤ) (k : ℕ) (row : ℤ)
      → clicked_row contain pi panels x y ≡ some (k, row)
      → (k < pi + length panels) × (negsuc 0 ≤ℤ row)
  unfolding clicked_row
  clicked_row-InRange pi [] x y k row e = absurd (cc)
  clicked_row-InRange pi (p ∷ panels) x y k row e =
      elim (if_some (ltb_ℤ (hit_row contain p.panel p.row_hits x y) (pos 0)) e) [
        | inl (lt, here) ↦
            let more = clicked_row-InRange (suc pi) panels x y k row here in
            (omega (arith, more.0), more.1)
        | inr (ge, same, found) ↦ (
          omega (arith, same),
          subst (λ i. negsuc 0 ≤ℤ i) found
              (not_negative (hit_row contain p.panel p.row_hits x y) ge),
        )
      ]

  with_hit-Keeps :
      (hit : Option (ℕ × ℤ)) (x y : ℤ) (tab : LuaTab Data Box)
      → clicked_row contain 0 tab.lua_panels x y ≡ hit
      → WellFormed tab
      → Keeps (with_hit o key_text contain hit tab)
  unfolding with_hit
  with_hit-Keeps none x y tab e w = w
  with_hit-Keeps (some (pi, row)) x y tab e w =
      let (lt, ge) = clicked_row-InRange 0 tab.lua_panels x y pi row e in
      click_row-Keeps pi row tab w (omega (arith, lt)) ge

  mouse_key-Keeps :
      (left : Bool) (x y : ℤ) (tab : LuaTab Data Box)
      → WellFormed tab
      → Keeps (mouse_key o key_text contain left x y tab)
  unfolding mouse_key
  mouse_key-Keeps false x y tab w = w
  mouse_key-Keeps true x y tab w =
      with_hit-Keeps (clicked_row contain 0 tab.lua_panels x y) x y tab refl w

  with_button-Keeps :
      (button : Option ℤ) (event : Event) (tab : LuaTab Data Box)
      → WellFormed tab
      → Keeps (with_button o key_text contain button event tab)
  unfolding with_button
  with_button-Keeps (some id) event tab w = record {
    input = w.input;
    qr = w.qr;
    focus = w.focus;
    scrolling = w.scrolling;
    panels = w.panels;
  }
  with_button-Keeps none event tab w = navigate-Keeps event tab w

  pub panels_key-Keeps :
      (event : Event) (tab : LuaTab Data Box)
      → WellFormed tab
      → Keeps (panels_key o key_text contain event tab)
  unfolding panels_key
  panels_key-Keeps (character ch) tab w =
      with_button-Keeps (button_of ch tab.footer_btn_labels) (character ch) tab w
  panels_key-Keeps (mouse left x y) tab w = mouse_key-Keeps left x y tab w
  panels_key-Keeps escape tab w = navigate-Keeps escape tab w
  panels_key-Keeps return_key tab w = navigate-Keeps return_key tab w
  panels_key-Keeps backspace tab w = navigate-Keeps backspace tab w
  panels_key-Keeps arrow_left tab w = navigate-Keeps arrow_left tab w
  panels_key-Keeps arrow_right tab w = navigate-Keeps arrow_right tab w
  panels_key-Keeps arrow_up tab w = navigate-Keeps arrow_up tab w
  panels_key-Keeps arrow_down tab w = navigate-Keeps arrow_down tab w
  panels_key-Keeps home tab w = navigate-Keeps home tab w
  panels_key-Keeps end_key tab w = navigate-Keeps end_key tab w
  panels_key-Keeps other_event tab w = navigate-Keeps other_event tab w
