-- ===== src/LuaTab/Highlighted.antt =====
-- src/tabs/luatab.cpp: the panel that an arrow should highlight.
use bitcoin_tui.Base.{
  nonneg, ℕ, Bool, true, false, List, if◌then◌else◌, leb_ℤ, inl, inr, ℤ, pos, negsuc, Outcome, ok,
  ◌≡◌, refl, ◌∙◌,
}
use bitcoin_tui.LuaTab.State.{LuaPanelRender, LuaTab}
use bitcoin_tui.LuaTab.Focus.{FirstFrom, LastBefore}
use bitcoin_tui.LuaTab.{enter_at}

module _ {Data Box : Type 0} where
  -- No overlay is open, and no row is being selected.
  pub record Idle (tab : LuaTab Data Box) : Type 0 where
    pub no_input : tab.input_overlay.active ≡ false
    pub no_qr : tab.show_qr_overlay ≡ false
    pub no_scrolling : tab.panel_scrolling ≡ false

  -- The key leaves the panels as they are, and the highlight as told.
  abbrev pub Highlights :
      List (LuaPanelRender Data Box) → (ℤ → Type 0) → Outcome (Bool × LuaTab Data Box) → Type 0
  Highlights panels P r =
      (out : Bool × LuaTab Data Box) × (r ≡ ok out)
      × (out.1.lua_panels ≡ panels)
      × P (out.1.focused_panel)

  pub focused-FirstFrom :
      (tab : LuaTab Data Box) (start : ℕ) (i : ℤ)
      → FirstFrom tab.lua_panels start (negsuc 0) i
      → Highlights tab.lua_panels
          (FirstFrom tab.lua_panels start tab.focused_panel)
          (ok (true, if leb_ℤ (pos 0) i then record tab { focused_panel = i } else tab))
  focused-FirstFrom tab start i (inl (e, rest)) = rw e (_, refl, refl, inl (refl, rest))
  focused-FirstFrom tab start i (inr (k, e, a, b, c)) =
      rw (e, nonneg k) (_, refl, refl, inr (k, refl, a, b, c))

  pub focused-LastBefore :
      (tab : LuaTab Data Box) (stop : ℕ) (i : ℤ)
      → LastBefore tab.lua_panels stop (negsuc 0) i
      → Highlights tab.lua_panels (LastBefore tab.lua_panels stop (negsuc 0)) (
          ok (
            true,
            if leb_ℤ (pos 0) i
                then record tab { focused_panel = i }
                else record tab { focused_panel = negsuc 0; panel_scrolling = false },
          ))
  focused-LastBefore tab stop i (inl (e, rest)) = rw e (_, refl, refl, inl (refl, rest))
  focused-LastBefore tab stop i (inr (k, e, a, b, c)) =
      rw (e, nonneg k) (_, refl, refl, inr (k, refl, a, b, c))

  pub entered-FirstFrom :
      (tab : LuaTab Data Box) (start : ℕ) (i : ℤ)
      → tab.focused_panel ≡ negsuc 0
      → FirstFrom tab.lua_panels start (negsuc 0) i
      → Highlights tab.lua_panels
          (FirstFrom tab.lua_panels start tab.focused_panel)
          (ok (enter_at i tab))
  unfolding enter_at
  entered-FirstFrom tab start i f (inl (e, rest)) = rw e (_, refl, refl, inl (refl, rest))
  entered-FirstFrom tab start i f (inr (k, e, a, b, c)) =
      rw (e, nonneg k) (_, refl, refl, inr (k, refl, a, b, c))

  pub entered-LastBefore :
      (tab : LuaTab Data Box) (stop : ℕ) (i : ℤ)
      → tab.focused_panel ≡ negsuc 0
      → LastBefore tab.lua_panels stop (negsuc 0) i
      → Highlights tab.lua_panels (LastBefore tab.lua_panels stop (negsuc 0)) (ok (enter_at i tab))
  unfolding enter_at
  entered-LastBefore tab stop i f (inl (e, rest)) = rw e (_, refl, refl, inl (f, rest))
  entered-LastBefore tab stop i f (inr (k, e, a, b, c)) =
      rw (e, nonneg k) (_, refl, refl, inr (k, refl, a, b, c))

module _ {Data Box : Type 0} where
  pub Highlights-by :
      (panels : List (LuaPanelRender Data Box)) (P : ℤ → Type 0)
      {r r' : Outcome (Bool × LuaTab Data Box)}
      → r ≡ r'
      → Highlights panels P r'
      → Highlights panels P r
  Highlights-by panels P e (out, f, kept, p) = (out, e ∙ f, kept, p)
