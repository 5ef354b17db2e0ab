-- ===== src/LuaTab/Clicks.antt =====
-- src/tabs/luatab.cpp: one click selects a row, the next activates it.
use bitcoin_tui.Base.{
  ℕ, Bool, true, false, ◌&&◌, List, [], ◌∷◌, ◌++◌, append-nil, Bytes, codes, Option, none, some,
  inl, inr, Bool-cases, ℤ, pos, negsuc, ok, ◌≡◌, ◌⊎◌, refl, sym, ap, ◌∙◌, arith,
}
use bitcoin_tui.LuaTable.{LuaTable, DataOrder}
use bitcoin_tui.LuaTab.State.{LuaTab, mouse, clicked_row}
use bitcoin_tui.LuaTab.Nearest.{true≢false}
use bitcoin_tui.LuaTab.{
  select_row, at_panel, key_at, is_at, row_of, same_ℤ, activate, emplace, clicked, click_row,
  handle_focused_event,
}
use bitcoin_tui.LuaTab.Hits.{same_self}
use bitcoin_tui.LuaTab.Clicked.{
  IsClicked, activate-IsClicked, clicked-IsClicked, handle_focused_event-click_row,
}

module _ {Data Box : Type 0} (o : DataOrder Data) (key_text : LuaTable Data → Data → Bytes)
    (contain : Box → ℤ → ℤ → Bool) where
  -- The test for the row that is selected already.
  abbrev already : ℕ → ℤ → LuaTab Data Box → Bool
  already pi row tab =
      same_ℤ o key_text contain tab.focused_panel (pos pi)
      && tab.panel_scrolling
      && is_at o key_text contain (row_of o key_text contain pi tab.lua_panels) row

  already-true :
      (pi : ℕ) (row x y : ℤ) (tab : LuaTab Data Box)
      → IsClicked o key_text contain pi row x y tab
      → already pi row tab ≡ true
  already-true pi row x y tab c =
      rw (c.focused, c.scrolling, c.selected)
        (unfold is_at same_ℤ in rw (same_self (pos pi), same_self row) refl)

  -- What it tests.
  abbrev pub IsSelected : ℕ → ℤ → LuaTab Data Box → Type 0
  IsSelected pi row tab =
      (tab.focused_panel ≡ pos pi)
      × (tab.panel_scrolling ≡ true)
      × (row_of o key_text contain pi tab.lua_panels ≡ some row)

  same_ℤ-equal : (x y : ℤ) → same_ℤ o key_text contain x y ≡ true → x ≡ y
  unfolding same_ℤ
  same_ℤ-equal (pos x) (pos y) h = ap pos (ground (arith, h))
  same_ℤ-equal (pos x) (negsuc y) h = ground (arith, h)
  same_ℤ-equal (negsuc x) (pos y) h = ground (arith, h)
  same_ℤ-equal (negsuc x) (negsuc y) h = ap negsuc (ground (arith, h))

  is_at-equal : (r : Option ℤ) (row : ℤ) → is_at o key_text contain r row ≡ true → r ≡ some row
  unfolding is_at
  is_at-equal none row h = absurd (true≢false refl (sym h))
  is_at-equal (some cur) row h = ap some (same_ℤ-equal cur row h)

  all_three : (a b c : Bool) → (a && b && c) ≡ true → (a ≡ true) × (b ≡ true) × (c ≡ true)
  all_three true true true h = (refl, refl, refl)
  all_three true true false h = absurd (true≢false h refl)
  all_three true false c h = absurd (true≢false h refl)
  all_three false b c h = absurd (true≢false h refl)

  already-IsSelected :
      (pi : ℕ) (row : ℤ) (tab : LuaTab Data Box) → already pi row tab ≡ true → IsSelected pi row tab
  already-IsSelected pi row tab h =
      let (focus, scrolls, at) = all_three _ _ _ h in
      (same_ℤ-equal tab.focused_panel (pos pi) focus, scrolls, is_at-equal _ row at)

  click_row-again :
      (pi : ℕ) (row x y : ℤ) (tab : LuaTab Data Box)
      → IsClicked o key_text contain pi row x y tab
      → click_row o key_text contain pi row tab
        ≡ emplace o key_text contain
            (key_at o key_text contain (pos pi) (clicked pi row tab).lua_panels)
            (codes "click")
            (clicked pi row tab)
  click_row-again pi row x y tab c =
      unfold click_row is_at same_ℤ activate in
      ap (λ again. activate o key_text contain again pi (clicked pi row tab))
        (already-true pi row x y tab c)

  -- What a click queues for the script.
  abbrev pub clicks : Option Bytes → List (Bytes × Bytes)
  clicks none = []
  clicks (some key) = (key, codes "click") ∷ []

  emplace-queue :
      (key : Option Bytes) (tab : LuaTab Data Box)
      → (emplace o key_text contain key (codes "click") tab).select_queue
        ≡ tab.select_queue ++ clicks key
  unfolding emplace
  emplace-queue none tab = sym (append-nil tab.select_queue)
  emplace-queue (some key) tab = refl

  -- What the first click queues: nothing, unless the row is the selected one already.
  pub FirstClick : ℕ → ℤ → LuaTab Data Box → LuaTab Data Box → Type 0
  FirstClick pi row tab first =
      (¬ IsSelected pi row tab × (first.select_queue ≡ tab.select_queue))
      ⊎ (IsSelected pi row tab
          × (first.select_queue
              ≡ tab.select_queue
                ++ clicks (
                    key_at o key_text contain (pos pi)
                      (at_panel (select_row row) (pos pi) tab.lua_panels))))

  click_row-first :
      (pi : ℕ) (row x y : ℤ) (tab : LuaTab Data Box)
      → tab.input_overlay.active ≡ false
      → tab.show_qr_overlay ≡ false
      → clicked_row contain 0 tab.lua_panels x y ≡ some (pi, row)
      → FirstClick pi row tab (click_row o key_text contain pi row tab)
  unfolding FirstClick
  click_row-first pi row x y tab i q e =
      let as_clicked : IsSelected pi row tab → IsClicked o key_text contain pi row x y tab = λ s.
        record {
          no_input = i;
          no_qr = q;
          hit_again = e;
          focused = s.0;
          scrolling = s.1;
          selected = s.2;
        } in
      elim (Bool-cases (already pi row tab)) [
        | inl again ↦
            let selected = already-IsSelected pi row tab again in
            inr (
              selected,
              ap (λ t. t.select_queue) (click_row-again pi row x y tab (as_clicked selected))
                  ∙ emplace-queue _ (clicked pi row tab),
            )
        | inr once ↦ inl (
          λ s. true≢false (already-true pi row x y tab (as_clicked s)) once,
          unfold click_row activate in
              ap (λ b. (activate o key_text contain b pi (clicked pi row tab)).select_queue) once,
        )
      ]

  -- A click with the left button on the row of a table, with no overlay open, highlights the table
  -- and selects the row. It queues nothing for the script, unless the table was highlighted with its
  -- rows being selected, and this row the selected one, already: then it queues the key of the row,
  -- if the table has it. A second click on the same place queues the key of that row, if the table
  -- has it, and nothing else.
  pub handle_focused_event-twice :
      (tab : LuaTab Data Box) (x y : ℤ) (pi : ℕ) (row : ℤ)
      → tab.input_overlay.active ≡ false
      → tab.show_qr_overlay ≡ false
      → clicked_row contain 0 tab.lua_panels x y ≡ some (pi, row)
      → (first second : LuaTab Data Box) × (handle_focused_event o key_text contain
            (mouse true x y)
            tab
          ≡ ok (true, first))
        × (first.focused_panel ≡ pos pi)
        × (row_of o key_text contain pi first.lua_panels ≡ some row)
        × FirstClick pi row tab first
        × (handle_focused_event o key_text contain (mouse true x y) first ≡ ok (true, second))
        × (second.select_queue
            ≡ first.select_queue
              ++ clicks (
                  key_at o key_text contain
                    (pos pi)
                    (at_panel (select_row row) (pos pi) first.lua_panels)))
  handle_focused_event-twice tab x y pi row i q e =
      let first = click_row o key_text contain pi row tab in
      let c : IsClicked o key_text contain pi row x y first =
        unfold click_row in
        activate-IsClicked o key_text contain (already pi row tab) pi row x y (clicked pi row tab)
          (clicked-IsClicked o key_text contain pi row x y tab i q e) in
      (
        first,
        click_row o key_text contain pi row first,
        handle_focused_event-click_row o key_text contain pi row x y tab i q e,
        c.focused,
        c.selected,
        click_row-first pi row x y tab i q e,
        handle_focused_event-click_row o key_text contain pi row x y first c.no_input c.no_qr
            c.hit_again,
        ap (λ t. t.select_queue) (click_row-again pi row x y first c)
            ∙ emplace-queue _ (clicked pi row first),
      )
