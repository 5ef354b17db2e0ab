-- ===== src/LuaTab/Cursor.antt =====
-- src/tabs/luatab.cpp: the cursor of the text input stays in range.
use bitcoin_tui.Base.{
  ℕ, ◌≤◌, Bool, true, [], ◌++◌, length, take, drop, take-append-drop, length-take, Bytes, ℤ, pos,
  ok, ◌≡◌, refl, sym, ap, ◌∙◌, arith,
}
use bitcoin_tui.LuaTab.State.{Event, InputOverlay}
use bitcoin_tui.LuaTab.Overlay.{edit}
use bitcoin_tui.LuaTab.Editor.{
  shown, edited, rev_append, rev_append-length, rev_append-append, rev_append-twice, edit_lem,
}

-- The cursor stands in the text or behind it.
abbrev pub CursorFits : InputOverlay → Type 0
CursorFits o = (c : ℕ) × (o.cursor ≡ pos c) × (c ≤ length o.buffer)

-- The editor of an overlay whose cursor is `c`.
abbrev editor_at : ℕ → Bytes → Bytes × Bytes
editor_at c buffer = (rev_append (take c buffer) [], drop c buffer)

shown-CursorFits : (label : Bytes) (z : Bytes × Bytes) → CursorFits (shown label z)
shown-CursorFits label (front, back) =
    (length front, refl, omega (arith, rev_append-length front back))

editor_at-buffer :
    (c : ℕ) (buffer : Bytes) → buffer ≡ rev_append (rev_append (take c buffer) []) (drop c buffer)
editor_at-buffer c buffer =
    sym (take-append-drop c buffer)
    ∙ ap (λ xs. xs ++ drop c buffer) (sym (rev_append-twice (take c buffer) []))
    ∙ sym (rev_append-append (rev_append (take c buffer) []) (drop c buffer))

editor_at-cursor :
    (c : ℕ) (buffer : Bytes) → c ≤ length buffer → c ≡ length (rev_append (take c buffer) [])
editor_at-cursor c buffer h =
    omega (arith, h, rev_append-length (take c buffer) [], length-take c buffer)

abbrev overlay : Bool → Bytes → Bytes → ℤ → InputOverlay
overlay active label buffer cursor = record {
  active = active;
  label = label;
  buffer = buffer;
  cursor = cursor;
}

overlay-eq :
    (label : Bytes) {a a' : Bool} {s s' : Bytes} {i j : ℤ}
    → a ≡ a'
    → s ≡ s'
    → i ≡ j
    → overlay a label s i ≡ overlay a' label s' j
overlay-eq label {a} {a'} {s} {s'} {i} {j} ea es ei =
    ap (λ x. overlay x label s i) ea
    ∙ ap (λ x. overlay a' label x i) es
    ∙ ap (λ x. overlay a' label s' x) ei

overlay-shown :
    (o : InputOverlay) (c : ℕ)
    → o.active ≡ true
    → o.cursor ≡ pos c
    → c ≤ length o.buffer
    → o ≡ shown o.label (editor_at c o.buffer)
overlay-shown o c a e h =
    overlay-eq o.label a (editor_at-buffer c o.buffer) (e ∙ ap pos (editor_at-cursor c o.buffer h))

pub edit-CursorFits :
    (event : Event) (o : InputOverlay)
    → o.active ≡ true
    → CursorFits o
    → (out : InputOverlay) × (edit event o ≡ ok out) × CursorFits out
edit-CursorFits event o a (c, e, h) =
    let z = editor_at c o.buffer in
    (
      shown o.label (edited event z),
      ap (edit event) (overlay-shown o c a e h) ∙ edit_lem event o.label z,
      shown-CursorFits o.label (edited event z),
    )
