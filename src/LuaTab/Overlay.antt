-- ===== src/LuaTab/Overlay.antt =====
-- src/tabs/luatab.cpp: the keys of the text input and of the QR overlay, and how Lua opens them.
use bitcoin_tui.Base.{
  suc, Bool, true, false, List, [], ◌∷◌, ◌++◌, Bytes, length, take, drop, leb, ltb_ℤ, if◌then◌else◌,
  none, some, ℤ, pos, negsuc, ◌+ℤ◌, ◌-ℤ◌, Outcome, ok, throw, bind, out_of_range,
}
use bitcoin_tui.State.{empty}
use bitcoin_tui.LuaTab.State.{
  Event, escape, return_key, backspace, arrow_left, arrow_right, home, end_key, character,
  InputOverlay, QrItem, LuaTab,
}

-- std::string::erase(at, 1)
unfoldable pub erase_at : ℤ → Bytes → Outcome Bytes
erase_at (negsuc i) s = throw out_of_range
erase_at (pos i) s =
    if leb i (length s) then ok (take i s ++ drop (suc i) s) else throw out_of_range

-- std::string::insert(at, text)
unfoldable pub insert_text : ℤ → Bytes → Bytes → Outcome Bytes
insert_text (negsuc i) text s = throw out_of_range
insert_text (pos i) text s =
    if leb i (length s) then ok (take i s ++ text ++ drop i s) else throw out_of_range

-- The keys that change the overlay and leave it open.
unfoldable pub edit : Event → InputOverlay → Outcome InputOverlay
unfolding erase_at insert_text
edit backspace o =
    if ltb_ℤ (pos 0) o.cursor
    then bind (erase_at (o.cursor -ℤ pos 1) o.buffer)
        (λ s. ok (record o { buffer = s; cursor = o.cursor -ℤ pos 1 }))
    else ok o
edit arrow_left o =
    ok (record o { cursor = if ltb_ℤ (pos 0) o.cursor then o.cursor -ℤ pos 1 else o.cursor })
edit arrow_right o = ok (record o {
  cursor = if ltb_ℤ o.cursor (pos (length o.buffer)) then o.cursor +ℤ pos 1 else o.cursor;
})
edit home o = ok (record o { cursor = pos 0 })
edit end_key o = ok (record o { cursor = pos (length o.buffer) })
edit (character ch) o =
    bind (insert_text o.cursor ch o.buffer)
      (λ s. ok (record o { buffer = s; cursor = o.cursor +ℤ pos (length ch) }))
edit _ o = ok o

abbrev closed : InputOverlay → InputOverlay
closed o = record o { active = false; buffer = [] }

module _ {Data Box : Type 0} where
  -- Escape or the button of the footer.
  unfoldable pub cancel_input : LuaTab Data Box → LuaTab Data Box
  cancel_input tab = record tab {
    input_overlay = closed tab.input_overlay;
    input_result_queue = tab.input_result_queue ++ (none ∷ []);
  }

  -- Enter or the button of the footer.
  unfoldable pub confirm_input : LuaTab Data Box → LuaTab Data Box
  confirm_input tab = record tab {
    input_overlay = closed tab.input_overlay;
    input_result_queue = tab.input_result_queue ++ (some tab.input_overlay.buffer ∷ []);
  }

  unfoldable pub input_key : Event → LuaTab Data Box → Outcome (Bool × LuaTab Data Box)
  unfolding cancel_input confirm_input edit
  input_key escape tab = ok (true, cancel_input tab)
  input_key return_key tab = ok (true, confirm_input tab)
  input_key event tab =
      bind (edit event tab.input_overlay) (λ o. ok (true, record tab { input_overlay = o }))

  -- Escape or the button of the footer.
  unfoldable pub close_qr : LuaTab Data Box → LuaTab Data Box
  close_qr tab = record tab { show_qr_overlay = false; qr_selected = pos 0; qr_items = [] }

  unfoldable pub qr_key : Event → LuaTab Data Box → Bool × LuaTab Data Box
  unfolding close_qr
  qr_key escape tab = (true, close_qr tab)
  qr_key arrow_left tab = (
    true,
    record tab {
      qr_selected =
          if ltb_ℤ (pos 0) tab.qr_selected then tab.qr_selected -ℤ pos 1 else tab.qr_selected;
    },
  )
  qr_key arrow_right tab = (
    true,
    record tab {
      qr_selected =
          if ltb_ℤ tab.qr_selected (pos (length tab.qr_items) -ℤ pos 1)
          then tab.qr_selected +ℤ pos 1
          else tab.qr_selected;
    },
  )
  qr_key _ tab = (true, tab)

  -- btcui_text_input
  unfoldable pub text_input : Bytes → Bytes → LuaTab Data Box → LuaTab Data Box
  text_input label default_val tab = record tab {
    input_overlay = record {
      active = true;
      label = label;
      buffer = default_val;
      cursor = pos (length default_val);
    };
  }

  -- btcui_open_qr_overlay, when the items are read.
  unfoldable pub open_qr_overlay : List QrItem → LuaTab Data Box → LuaTab Data Box
  open_qr_overlay items tab =
      if empty items
      then tab
      else record tab { show_qr_overlay = true; qr_selected = pos 0; qr_items = items }
