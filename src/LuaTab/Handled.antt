-- ===== src/LuaTab/Handled.antt =====
-- src/tabs/luatab.cpp: every event is handled, and keeps what holds of a tab.
use bitcoin_tui.Base.{
  positive, pred_pos, succ_pos, ℕ, zero, suc, ◌≤◌, ◌<◌, Bool, true, false, List, length, Bytes,
  if◌then◌else◌, ltb_ℤ, Option, inl, inr, ℤ, pos, ◌+ℤ◌, ◌-ℤ◌, Outcome, ok, bind, ◌≡◌, refl, ap,
  arith,
}
use bitcoin_tui.LuaTable.{LuaTable, DataOrder}
use bitcoin_tui.LuaTab.State.{
  Event, escape, return_key, backspace, arrow_left, arrow_right, arrow_up, arrow_down, home,
  end_key, character, mouse, other_event, LuaTab, InputOverlay,
}
use bitcoin_tui.LuaTab.Overlay.{edit, input_key, qr_key, cancel_input, confirm_input, close_qr}
use bitcoin_tui.LuaTab.Focus.{le_or_lt}
use bitcoin_tui.LuaTab.Cursor.{CursorFits, edit-CursorFits}
use bitcoin_tui.LuaTab.Nearest.{true≢false}
use bitcoin_tui.LuaTab.{panels_key, handle_focused_event}
use bitcoin_tui.LuaTab.Fits.{WellFormed, Keeps}
use bitcoin_tui.LuaTab.Keys.{panels_key-Keeps}

more_right : (q n : ℕ) → suc (suc q) ≤ n → ltb_ℤ (pos q) (pos n -ℤ pos 1) ≡ true
more_right q n h = ground (arith, h)

no_more_right : (q n : ℕ) → q < n → n < suc (suc q) → ltb_ℤ (pos q) (pos n -ℤ pos 1) ≡ false
no_more_right q n h g = ground (arith, h, g)

-- A selection among `n` items.
abbrev Among : ℕ → ℤ → Type 0
Among n i = (q : ℕ) × (i ≡ pos q) × (q < n)

left-Among : (n : ℕ) (i : ℤ) → Among n i → Among n (if ltb_ℤ (pos 0) i then i -ℤ pos 1 else i)
left-Among n i (zero, e, lt) = rw e (0, refl, lt)
left-Among n i (suc q, e, lt) = rw (e, positive q, pred_pos q) (q, refl, omega (arith, lt))

right-Among :
    (n : ℕ) (i : ℤ) → Among n i → Among n (if ltb_ℤ i (pos n -ℤ pos 1) then i +ℤ pos 1 else i)
right-Among n i (q, e, lt) = elim (le_or_lt (suc (suc q)) n) [
  | inl le ↦ rw (e, more_right q n le, succ_pos q) (suc q, refl, le)
  | inr ge ↦ rw (e, no_more_right q n lt ge) (q, refl, lt)
]

module _ {Data Box : Type 0} (o : DataOrder Data) (key_text : LuaTable Data → Data → Bytes)
    (contain : Box → ℤ → ℤ → Bool) where
  pub qr_key-Keeps :
      (event : Event) (tab : LuaTab Data Box) → WellFormed tab → Keeps (qr_key event tab)
  unfolding qr_key close_qr
  qr_key-Keeps escape tab w = record {
    input = w.input;
    qr = λ e. absurd (true≢false e refl);
    focus = w.focus;
    scrolling = w.scrolling;
    panels = w.panels;
  }
  qr_key-Keeps arrow_left tab w = record {
    input = w.input;
    qr = λ e. left-Among (length tab.qr_items) tab.qr_selected (w.qr e);
    focus = w.focus;
    scrolling = w.scrolling;
    panels = w.panels;
  }
  qr_key-Keeps arrow_right tab w = record {
    input = w.input;
    qr = λ e. right-Among (length tab.qr_items) tab.qr_selected (w.qr e);
    focus = w.focus;
    scrolling = w.scrolling;
    panels = w.panels;
  }
  qr_key-Keeps _ tab w = w

  -- The overlay changes.
  pub input-Keeps :
      (v : InputOverlay) (results : List (Option Bytes)) (tab : LuaTab Data Box)
      → WellFormed tab
      → (v.active ≡ true → CursorFits v)
      → WellFormed (record tab { input_overlay = v; input_result_queue = results })
  input-Keeps v results tab w h = record {
    input = h;
    qr = w.qr;
    focus = w.focus;
    scrolling = w.scrolling;
    panels = w.panels;
  }

  pub cancel_input-Keeps : (tab : LuaTab Data Box) → WellFormed tab → WellFormed (cancel_input tab)
  unfolding cancel_input
  cancel_input-Keeps tab w = input-Keeps _ _ tab w (λ e. absurd (true≢false e refl))

  pub confirm_input-Keeps :
      (tab : LuaTab Data Box) → WellFormed tab → WellFormed (confirm_input tab)
  unfolding confirm_input
  confirm_input-Keeps tab w = input-Keeps _ _ tab w (λ e. absurd (true≢false e refl))

  -- The handler returns, and keeps the tab well formed.
  abbrev pub Handles : Outcome (Bool × LuaTab Data Box) → Type 0
  Handles r = (out : Bool × LuaTab Data Box) × (r ≡ ok out) × Keeps out

  Handles-if :
      (b : Bool) (x y : Outcome (Bool × LuaTab Data Box))
      → (b ≡ true → Handles x)
      → (b ≡ false → Handles y)
      → Handles (if b then x else y)
  Handles-if true x y hx hy = hx refl
  Handles-if false x y hx hy = hy refl

  edited-Handles :
      (event : Event) (tab : LuaTab Data Box)
      → WellFormed tab
      → tab.input_overlay.active ≡ true
      → Handles (
          bind {B = Bool × LuaTab Data Box}
            (edit event tab.input_overlay)
            (λ v. ok (true, record tab { input_overlay = v })))
  edited-Handles event tab w a =
      let (v, e, fits) = edit-CursorFits event tab.input_overlay a (w.input a) in
      (
        (true, record tab { input_overlay = v }),
        ap
            (λ r.
              bind {B = Bool × LuaTab Data Box} r
                (λ v. ok (true, record tab { input_overlay = v })))
            e,
        input-Keeps v tab.input_result_queue tab w (λ _. fits),
      )

  input_key-Handles :
      (event : Event) (tab : LuaTab Data Box)
      → WellFormed tab
      → tab.input_overlay.active ≡ true
      → Handles (input_key event tab)
  unfolding input_key
  input_key-Handles escape tab w a = ((true, cancel_input tab), refl, cancel_input-Keeps tab w)
  input_key-Handles return_key tab w a =
      ((true, confirm_input tab), refl, confirm_input-Keeps tab w)
  input_key-Handles backspace tab w a = edited-Handles backspace tab w a
  input_key-Handles arrow_left tab w a = edited-Handles arrow_left tab w a
  input_key-Handles arrow_right tab w a = edited-Handles arrow_right tab w a
  input_key-Handles arrow_up tab w a = edited-Handles arrow_up tab w a
  input_key-Handles arrow_down tab w a = edited-Handles arrow_down tab w a
  input_key-Handles home tab w a = edited-Handles home tab w a
  input_key-Handles end_key tab w a = edited-Handles end_key tab w a
  input_key-Handles (character ch) tab w a = edited-Handles (character ch) tab w a
  input_key-Handles (mouse left x y) tab w a = edited-Handles (mouse left x y) tab w a
  input_key-Handles other_event tab w a = edited-Handles other_event tab w a

  pub handle_focused_event-Handles :
      (event : Event) (tab : LuaTab Data Box)
      → WellFormed tab
      → Handles (handle_focused_event o key_text contain event tab)
  unfolding handle_focused_event
  handle_focused_event-Handles event tab w =
      Handles-if tab.input_overlay.active _ _ (λ a. input_key-Handles event tab w a)
        (λ closed.
          Handles-if tab.show_qr_overlay _ _
            (λ a. (qr_key event tab, refl, qr_key-Keeps event tab w))
            (λ no_qr. (
              panels_key o key_text contain event tab,
              refl,
              panels_key-Keeps o key_text contain event tab w,
            )))
