-- ===== src/LuaTab/Editing.antt =====
-- src/tabs/luatab.cpp: the text input against an editor with a list on each side of the cursor.
use bitcoin_tui.Base.{
  Bool, true, false, List, [], ◌∷◌, ◌++◌, Bytes, length, some, ℤ, pos, Outcome, ok, bind, ◌≡◌, refl,
  sym, ap, ◌∙◌,
}
use bitcoin_tui.LuaTable.{LuaTable, DataOrder}
use bitcoin_tui.LuaTab.State.{
  Event, escape, return_key, backspace, arrow_left, arrow_right, arrow_up, arrow_down, home,
  end_key, character, mouse, other_event, LuaTab,
}
use bitcoin_tui.LuaTab.Overlay.{edit, input_key, confirm_input, text_input}
use bitcoin_tui.LuaTab.{handle_focused_event}
use bitcoin_tui.LuaTab.Editor.{
  rev_append, edited, edited_by, shown, rev_append-twice, turned-length, edit_lem,
}

-- The keys that leave the overlay open.
abbrev pub Editing : Event → Type 0
Editing escape = ⊥
Editing return_key = ⊥
Editing _ = Unit

abbrev pub AllEditing : List Event → Type 0
AllEditing [] = Unit
AllEditing (event ∷ events) = Editing event × AllEditing events

module _ {Data Box : Type 0} (o : DataOrder Data) (key_text : LuaTable Data → Data → Bytes)
    (contain : Box → ℤ → ℤ → Bool) where
  -- The events, one behind the other.
  unfoldable pub handle_all : List Event → LuaTab Data Box → Outcome (LuaTab Data Box)
  handle_all [] tab = ok tab
  handle_all (event ∷ events) tab =
      bind (handle_focused_event o key_text contain event tab) (λ r. handle_all events r.1)

  -- The tab while the overlay shows an editor.
  abbrev pub editing : Bytes → Bytes × Bytes → LuaTab Data Box → LuaTab Data Box
  editing label z tab = record tab { input_overlay = shown label z }

  by_edit :
      (event : Event) (label : Bytes) (z : Bytes × Bytes) (tab : LuaTab Data Box)
      → bind {B = Bool × LuaTab Data Box}
          (edit event (shown label z))
          (λ v. ok (true, record tab { input_overlay = v }))
        ≡ ok (true, editing label (edited event z) tab)
  by_edit event label z tab =
      ap
        (λ r.
          bind {B = Bool × LuaTab Data Box} r (λ v. ok (true, record tab { input_overlay = v })))
        (edit_lem event label z)

  handle_focused_event-edited :
      (event : Event) (label : Bytes) (z : Bytes × Bytes) (tab : LuaTab Data Box)
      → Editing event
      → handle_focused_event o key_text contain event (editing label z tab)
        ≡ ok (true, editing label (edited event z) tab)
  unfolding handle_focused_event input_key
  handle_focused_event-edited escape label z tab h = elim h [ ]
  handle_focused_event-edited return_key label z tab h = elim h [ ]
  handle_focused_event-edited backspace label z tab h = by_edit backspace label z tab
  handle_focused_event-edited arrow_left label z tab h = by_edit arrow_left label z tab
  handle_focused_event-edited arrow_right label z tab h = by_edit arrow_right label z tab
  handle_focused_event-edited arrow_up label z tab h = by_edit arrow_up label z tab
  handle_focused_event-edited arrow_down label z tab h = by_edit arrow_down label z tab
  handle_focused_event-edited home label z tab h = by_edit home label z tab
  handle_focused_event-edited end_key label z tab h = by_edit end_key label z tab
  handle_focused_event-edited (character ch) label z tab h = by_edit (character ch) label z tab
  handle_focused_event-edited (mouse left x y) label z tab h = by_edit (mouse left x y) label z tab
  handle_focused_event-edited other_event label z tab h = by_edit other_event label z tab

  handle_all-edited :
      (events : List Event) (label : Bytes) (z : Bytes × Bytes) (tab : LuaTab Data Box)
      → AllEditing events
      → handle_all (events ++ (return_key ∷ [])) (editing label z tab)
        ≡ ok (confirm_input (editing label (edited_by events z) tab))
  unfolding handle_all
  handle_all-edited [] label z tab h = unfold handle_focused_event input_key in refl
  handle_all-edited (event ∷ events) label z tab (h, hs) =
      rw (handle_focused_event-edited event label z tab h)
        (handle_all-edited events label (edited event z) tab hs)

  text_input-editing :
      (label default_val : Bytes) (tab : LuaTab Data Box)
      → text_input label default_val tab ≡ editing label (rev_append default_val [], []) tab
  unfolding text_input
  text_input-editing label default_val tab =
      rw (rev_append-twice default_val [], sym (turned-length default_val)) refl

  confirmed :
      (label : Bytes) (z : Bytes × Bytes) (tab : LuaTab Data Box)
      → ok (confirm_input (editing label z tab))
        ≡ ok (record tab {
          input_overlay = record {
            active = false;
            label = label;
            buffer = [];
            cursor = pos (length z.0);
          };
          input_result_queue = tab.input_result_queue ++ (some (rev_append z.0 z.1) ∷ []);
        })
  unfolding confirm_input
  confirmed label z tab = refl

  -- When Lua asks for a text, then whatever keys are pressed before Enter, none of them Escape, the
  -- tab throws nothing, and what Lua gets is the text of an editor with one list on each side of the
  -- cursor: it starts behind the default, a character goes in front of the cursor, the arrows, Home and End
  -- move it, and Backspace takes the byte in front of it. Nothing else of the tab changes but the overlay, which is closed.
  pub text_input-handle_all :
      (label default_val : Bytes) (events : List Event) (tab : LuaTab Data Box)
      → AllEditing events
      → let (front, back) = edited_by events (rev_append default_val [], []) in
        handle_all (events ++ (return_key ∷ [])) (text_input label default_val tab)
        ≡ ok (record tab {
          input_overlay = record {
            active = false;
            label = label;
            buffer = [];
            cursor = pos (length front);
          };
          input_result_queue = tab.input_result_queue ++ (some (rev_append front back) ∷ []);
        })
  text_input-handle_all label default_val events tab h =
      ap (handle_all (events ++ (return_key ∷ []))) (text_input-editing label default_val tab)
      ∙ handle_all-edited events label (rev_append default_val [], []) tab h
      ∙ confirmed label (edited_by events (rev_append default_val [], [])) tab
