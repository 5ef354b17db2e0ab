-- ===== src/LuaTab/Panels.antt =====
-- src/tabs/luatab.cpp: what every key keeps of the panels.
use bitcoin_tui.Base.{
  ℕ, zero, suc, ◌≤ℤ◌, List, [], ◌∷◌, length, if◌then◌else◌, ltb_ℤ, inl, inr, ℤ, pos, negsuc, ◌+ℤ◌,
  ◌-ℤ◌, ◌≡◌, refl, ap, arith,
}
use mathlib.Core.Path.{subst}
use bitcoin_tui.LuaTab.State.{LuaPanel, table_panel, summary_panel, LuaPanelRender}
use bitcoin_tui.LuaTab.Nearest.{InFocus}
use bitcoin_tui.LuaTab.{select_row, first_row, panel_down, panel_up, change, at_panel}

-- The selected row is none or an index.
abbrev pub RowFits : {Data : Type 0} → LuaPanel Data → Type 0
RowFits (table_panel table row) = negsuc 0 ≤ℤ row
RowFits summary_panel = Unit

first_ge : (i : ℤ) → negsuc 0 ≤ℤ i → negsuc 0 ≤ℤ (if ltb_ℤ i (pos 0) then pos 0 else i)
first_ge (pos i) h = ground arith
first_ge (negsuc i) h = ground arith

down_ge :
    (i : ℤ) (n : ℕ)
    → negsuc 0 ≤ℤ i
    → negsuc 0 ≤ℤ (if ltb_ℤ i (pos n -ℤ pos 1) then i +ℤ pos 1 else i)
down_ge (pos i) n h = ground arith
down_ge (negsuc i) n h = ground (arith, h)

up_ge : (i : ℤ) → negsuc 0 ≤ℤ i → negsuc 0 ≤ℤ (if ltb_ℤ (pos 0) i then i -ℤ pos 1 else i)
up_ge (pos i) h = ground arith
up_ge (negsuc i) h = ground (arith, h)

next_ge : (i : ℤ) → pos 0 ≤ℤ i → pos 0 ≤ℤ (i +ℤ pos 1)
next_ge (pos i) h = ground arith
next_ge (negsuc i) h = absurd (omega (arith, h))

last_ge : (i : ℤ) → pos 0 ≤ℤ i → pos 0 ≤ℤ (if ltb_ℤ (pos 0) i then i -ℤ pos 1 else i)
last_ge (pos i) h = ground arith
last_ge (negsuc i) h = absurd (omega (arith, h))

module _ {Data Box : Type 0} where
  pub record PanelFits (p : LuaPanelRender Data Box) : Type 0 where
    pub row : RowFits p.panel
    pub offset : pos 0 ≤ℤ p.scroll_offset

  abbrev pub AllFit : List (LuaPanelRender Data Box) → Type 0
  AllFit [] = Unit
  AllFit (p ∷ panels) = PanelFits p × AllFit panels

  -- A change of a panel that keeps this.
  abbrev pub Safe : (LuaPanelRender Data Box → LuaPanelRender Data Box) → Type 0
  Safe f = (p : LuaPanelRender Data Box) → PanelFits p → PanelFits (f p)

  pub length-change :
      (f : LuaPanelRender Data Box → LuaPanelRender Data Box) (i : ℕ)
      (panels : List (LuaPanelRender Data Box))
      → length (change f i panels) ≡ length panels
  unfolding change
  length-change f i [] = refl
  length-change f zero (p ∷ panels) = refl
  length-change f (suc i) (p ∷ panels) = ap suc (length-change f i panels)

  change-AllFit :
      (f : LuaPanelRender Data Box → LuaPanelRender Data Box) (i : ℕ)
      (panels : List (LuaPanelRender Data Box))
      → Safe f
      → AllFit panels
      → AllFit (change f i panels)
  unfolding change
  change-AllFit f i [] s h = h
  change-AllFit f zero (p ∷ panels) s (h, hs) = (s p h, hs)
  change-AllFit f (suc i) (p ∷ panels) s (h, hs) = (h, change-AllFit f i panels s hs)

  pub at_panel-AllFit :
      (f : LuaPanelRender Data Box → LuaPanelRender Data Box) (i : ℤ)
      (panels : List (LuaPanelRender Data Box))
      → Safe f
      → AllFit panels
      → AllFit (at_panel f i panels)
  unfolding at_panel
  at_panel-AllFit f (negsuc i) panels s h = h
  at_panel-AllFit f (pos i) panels s h = change-AllFit f i panels s h

  pub length-at_panel :
      (f : LuaPanelRender Data Box → LuaPanelRender Data Box) (i : ℤ)
      (panels : List (LuaPanelRender Data Box))
      → length (at_panel f i panels) ≡ length panels
  unfolding at_panel
  length-at_panel f (negsuc i) panels = refl
  length-at_panel f (pos i) panels = length-change f i panels

  pub at_panel-InFocus :
      (f : LuaPanelRender Data Box → LuaPanelRender Data Box) (i : ℤ)
      (panels : List (LuaPanelRender Data Box)) (focused : ℤ)
      → InFocus panels focused
      → InFocus (at_panel f i panels) focused
  at_panel-InFocus f i panels focused (inl e) = inl e
  at_panel-InFocus f i panels focused (inr (k, e, lt)) =
      inr (k, e, rw (length-at_panel f i panels) lt)

  pub select_row-Safe : (row : ℤ) → negsuc 0 ≤ℤ row → Safe (select_row row)
  unfolding select_row
  select_row-Safe row le p h = by_kind p.panel refl
    where
      by_kind : (q : LuaPanel Data) → p.panel ≡ q → PanelFits (select_row row p)
      by_kind (table_panel table cur) e = rw e (record { row = le; offset = h.offset })
      by_kind summary_panel e = rw e (record { row = tt; offset = h.offset })

  pub first_row-Safe : Safe first_row
  unfolding first_row
  first_row-Safe p h = by_kind p.panel refl
    where
      by_kind : (q : LuaPanel Data) → p.panel ≡ q → PanelFits (first_row p)
      by_kind (table_panel table cur) e =
          rw e (record { row = first_ge cur (subst RowFits e h.row); offset = h.offset })
      by_kind summary_panel e = rw e (record { row = tt; offset = h.offset })

  pub panel_down-Safe : Safe panel_down
  unfolding panel_down
  panel_down-Safe p h = by_kind p.panel refl
    where
      by_kind : (q : LuaPanel Data) → p.panel ≡ q → PanelFits (panel_down p)
      by_kind (table_panel table cur) e = rw e (record {
        row = down_ge cur (length table.rows) (subst RowFits e h.row);
        offset = h.offset;
      })
      by_kind summary_panel e =
          rw e (record { row = tt; offset = next_ge p.scroll_offset h.offset })

  pub panel_up-Safe : Safe panel_up
  unfolding panel_up
  panel_up-Safe p h = by_kind p.panel refl
    where
      by_kind : (q : LuaPanel Data) → p.panel ≡ q → PanelFits (panel_up p)
      by_kind (table_panel table cur) e =
          rw e (record { row = up_ge cur (subst RowFits e h.row); offset = h.offset })
      by_kind summary_panel e =
          rw e (record { row = tt; offset = last_ge p.scroll_offset h.offset })
