-- ===== src/LuaTab/Arrows.antt =====
-- src/tabs/luatab.cpp: the arrows while no row is selected.
use bitcoin_tui.Base.{
  nonneg, ℕ, ◌≤◌, ◌==◌, Bool, true, false, Bool-cases, length, Bytes, leb_ℤ, inl, inr, ℤ, pos,
  negsuc, ok, ◌≡◌, refl, ap, arith,
}
use mathlib.Core.Path.{subst}
use bitcoin_tui.LuaTable.{LuaTable, DataOrder}
use bitcoin_tui.LuaTab.State.{LuaTab, arrow_up, arrow_down}
use bitcoin_tui.LuaTab.Focus.{FirstFrom, LastBefore, is_selectable-past}
use bitcoin_tui.LuaTab.{
  next_selectable, focus_key, unfocused_key, panel_key, panels_key, navigate, handle_focused_event,
}
use bitcoin_tui.LuaTab.Nearest.{behind, in_front, InFocus, next_selectable-down, next_selectable-up}
use bitcoin_tui.LuaTab.Highlighted.{
  Idle, Highlights, focused-FirstFrom, focused-LastBefore, entered-FirstFrom, entered-LastBefore,
  Highlights-by,
}

module _ {Data Box : Type 0} (o : DataOrder Data) (key_text : LuaTable Data → Data → Bytes)
    (contain : Box → ℤ → ℤ → Bool) where
  handle_focused_event-navigate :
      (tab : LuaTab Data Box)
      → Idle tab
      → (handle_focused_event o key_text contain arrow_down tab
          ≡ ok (navigate o key_text contain arrow_down tab))
        × (handle_focused_event o key_text contain arrow_up tab
            ≡ ok (navigate o key_text contain arrow_up tab))
  unfolding handle_focused_event panels_key
  handle_focused_event-navigate tab idle =
      (rw (idle.no_input, idle.no_qr) refl, rw (idle.no_input, idle.no_qr) refl)

  navigate-none :
      (tab : LuaTab Data Box)
      → (length tab.lua_panels == 0) ≡ true
      → (navigate o key_text contain arrow_down tab ≡ (false, tab))
        × (navigate o key_text contain arrow_up tab ≡ (false, tab))
  unfolding navigate
  navigate-none tab e = (rw e refl, rw e refl)

  navigate-unfocused :
      (tab : LuaTab Data Box)
      → (length tab.lua_panels == 0) ≡ false
      → tab.focused_panel ≡ negsuc 0
      → (navigate o key_text contain arrow_down tab ≡ unfocused_key arrow_down tab)
        × (navigate o key_text contain arrow_up tab ≡ unfocused_key arrow_up tab)
  unfolding navigate
  navigate-unfocused tab e f =
      let test : leb_ℤ (pos 0) tab.focused_panel ≡ false = rw f refl in
      (rw (e, test) refl, rw (e, test) refl)

  navigate-focused :
      (tab : LuaTab Data Box) (k : ℕ)
      → (length tab.lua_panels == 0) ≡ false
      → tab.focused_panel ≡ pos k
      → tab.panel_scrolling ≡ false
      → (navigate o key_text contain arrow_down tab ≡ focus_key arrow_down tab)
        × (navigate o key_text contain arrow_up tab ≡ focus_key arrow_up tab)
  unfolding navigate panel_key
  navigate-focused tab k e f h =
      let test : leb_ℤ (pos 0) tab.focused_panel ≡ true = rw (f, nonneg k) refl in
      (rw (e, test, h) refl, rw (e, test, h) refl)

  none_from :
      (tab : LuaTab Data Box) → (length tab.lua_panels == 0) ≡ true → length tab.lua_panels ≤ 0
  none_from tab e = ground (arith, e)

  navigate-FirstFrom :
      (tab : LuaTab Data Box)
      → Idle tab
      → InFocus tab.lua_panels tab.focused_panel
      → Highlights tab.lua_panels
          (FirstFrom tab.lua_panels (behind tab.focused_panel) tab.focused_panel)
          (ok (navigate o key_text contain arrow_down tab))
  navigate-FirstFrom tab idle f =
      let next = next_selectable-down tab.lua_panels tab.focused_panel f in
      elim (Bool-cases (length tab.lua_panels == 0)) [
        | inl empty ↦ Highlights-by _ _ (ap ok (navigate-none tab empty).0) (
          _,
          refl,
          refl,
          inl (
            refl,
            λ j le. is_selectable-past tab.lua_panels j (omega (arith, none_from tab empty)),
          ),
        )
        | inr some_panels ↦ elim f [
          | inl e ↦ Highlights-by _ _ (ap ok (navigate-unfocused tab some_panels e).0) (
              unfold unfocused_key in
              entered-FirstFrom tab _ _ e (
                subst
                  (λ i.
                    FirstFrom tab.lua_panels (behind tab.focused_panel) (negsuc 0)
                      (next_selectable i (pos 1) tab.lua_panels))
                  e next))
          | inr (k, e, lt) ↦
              Highlights-by _ _ (ap ok (navigate-focused tab k some_panels e idle.no_scrolling).0)
                (unfold focus_key in focused-FirstFrom tab _ _ next)
        ]
      ]

  navigate-LastBefore :
      (tab : LuaTab Data Box)
      → Idle tab
      → InFocus tab.lua_panels tab.focused_panel
      → Highlights tab.lua_panels
          (LastBefore tab.lua_panels
            (in_front (length tab.lua_panels) tab.focused_panel)
            (negsuc 0))
          (ok (navigate o key_text contain arrow_up tab))
  navigate-LastBefore tab idle f = elim (Bool-cases (length tab.lua_panels == 0)) [
    | inl empty ↦ Highlights-by _ _ (ap ok (navigate-none tab empty).1) (
      _,
      refl,
      refl,
      elim f [
        | inl e ↦
            inl
              (e, λ j lt. is_selectable-past tab.lua_panels j (omega (arith, none_from tab empty)))
        | inr (k, e, lt) ↦ absurd (omega (arith, lt, none_from tab empty))
      ],
    )
    | inr some_panels ↦ elim f [
      | inl e ↦ Highlights-by _ _ (ap ok (navigate-unfocused tab some_panels e).1) (
          unfold unfocused_key in
          entered-LastBefore tab _ _ e
            (rw e (next_selectable-up tab.lua_panels (length tab.lua_panels) (omega arith))))
      | inr (k, e, lt) ↦
          Highlights-by _ _ (ap ok (navigate-focused tab k some_panels e idle.no_scrolling).1) (
            unfold focus_key in
            focused-LastBefore tab _ _
              (rw e (next_selectable-up tab.lua_panels k (omega (arith, lt)))))
    ]
  ]

  -- While no overlay is open and no row is being selected, the arrow down highlights the next panel
  -- that can be selected, a table or one that can be scrolled, or leaves the highlight where it is when there is none; the
  -- arrow up highlights the last one in front of it, or of all when none is highlighted, and takes the highlight away when there is
  -- none. The panels themselves stay as they are.
  pub handle_focused_event-Highlights :
      (tab : LuaTab Data Box)
      → Idle tab
      → InFocus tab.lua_panels tab.focused_panel
      → Highlights tab.lua_panels
          (FirstFrom tab.lua_panels (behind tab.focused_panel) tab.focused_panel)
          (handle_focused_event o key_text contain arrow_down tab)
        × Highlights tab.lua_panels
            (LastBefore tab.lua_panels
              (in_front (length tab.lua_panels) tab.focused_panel)
              (negsuc 0))
            (handle_focused_event o key_text contain arrow_up tab)
  handle_focused_event-Highlights tab idle f =
      let through = handle_focused_event-navigate tab idle in
      (
        Highlights-by _ _ through.0 (navigate-FirstFrom tab idle f),
        Highlights-by _ _ through.1 (navigate-LastBefore tab idle f),
      )
