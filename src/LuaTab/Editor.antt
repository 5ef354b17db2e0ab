-- ===== src/LuaTab/Editor.antt =====
-- src/tabs/luatab.cpp: the keys of the text input as an editor with a list on each side of the
-- cursor.
use bitcoin_tui.Base.{
  positive, pred_pos, succ_pos, ℕ, suc, ◌+◌, true, false, List, [], ◌∷◌, ◌++◌, append_assoc, Bytes,
  length, take, drop, leb, ltb_ℤ, pos, ◌+ℤ◌, ok, ◌≡◌, refl, sym, ap, ◌∙◌, arith,
}
use bitcoin_tui.LuaTab.State.{
  Event, backspace, arrow_left, arrow_right, home, end_key, character, InputOverlay,
}
use bitcoin_tui.LuaTab.Overlay.{erase_at, insert_text, edit}

-- The first list turned round, in front of the second.
abbrev pub rev_append : Bytes → Bytes → Bytes
rev_append [] ys = ys
rev_append (x ∷ xs) ys = rev_append xs (x ∷ ys)

-- An editor is the text in front of the cursor, the nearest byte first, and the text behind it.
abbrev pub edited : Event → Bytes × Bytes → Bytes × Bytes
edited backspace (x ∷ front, back) = (front, back)
edited arrow_left (x ∷ front, back) = (front, x ∷ back)
edited arrow_right (front, x ∷ back) = (x ∷ front, back)
edited home (front, back) = ([], rev_append front back)
edited end_key (front, back) = (rev_append back front, [])
edited (character ch) (front, back) = (rev_append ch front, back)
edited _ (front, back) = (front, back)

abbrev pub edited_by : List Event → Bytes × Bytes → Bytes × Bytes
edited_by [] z = z
edited_by (event ∷ events) z = edited_by events (edited event z)

-- The overlay that shows an editor.
abbrev pub shown : Bytes → Bytes × Bytes → InputOverlay
shown label (front, back) = record {
  active = true;
  label = label;
  buffer = rev_append front back;
  cursor = pos (length front);
}

pub rev_append-length : (xs ys : Bytes) → length (rev_append xs ys) ≡ length xs + length ys
rev_append-length [] ys = omega arith
rev_append-length (x ∷ xs) ys = rev_append-length xs (x ∷ ys) ∙ omega arith

pub rev_append-append : (xs ys : Bytes) → rev_append xs ys ≡ rev_append xs [] ++ ys
rev_append-append [] ys = refl
rev_append-append (x ∷ xs) ys =
    rev_append-append xs (x ∷ ys)
    ∙ sym (append_assoc (rev_append xs []) (x ∷ []) ys)
    ∙ ap (λ zs. zs ++ ys) (sym (rev_append-append xs (x ∷ [])))

pub rev_append-twice : (xs ys : Bytes) → rev_append (rev_append xs ys) [] ≡ rev_append ys xs
rev_append-twice [] ys = refl
rev_append-twice (x ∷ xs) ys = rev_append-twice xs (x ∷ ys)

take-prefix : (xs ys : Bytes) → take (length xs) (xs ++ ys) ≡ xs
take-prefix [] ys = refl
take-prefix (x ∷ xs) ys = ap (λ zs. x ∷ zs) (take-prefix xs ys)

drop-prefix : (xs ys : Bytes) → drop (length xs) (xs ++ ys) ≡ ys
drop-prefix [] ys = refl
drop-prefix (x ∷ xs) ys = drop-prefix xs ys

drop-suc-prefix : (xs : Bytes) (x : ℕ) (ys : Bytes) → drop (suc (length xs)) (xs ++ (x ∷ ys)) ≡ ys
drop-suc-prefix [] x ys = refl
drop-suc-prefix (y ∷ xs) x ys = drop-suc-prefix xs x ys

pub turned-length : (front : Bytes) → length front ≡ length (rev_append front [])
turned-length front = omega (arith, rev_append-length front [])

take-rev_append :
    (front back : Bytes) → take (length front) (rev_append front back) ≡ rev_append front []
take-rev_append front back =
    ap (λ zs. take (length front) zs) (rev_append-append front back)
    ∙ ap (λ n. take n (rev_append front [] ++ back)) (turned-length front)
    ∙ take-prefix (rev_append front []) back

drop-rev_append : (front back : Bytes) → drop (length front) (rev_append front back) ≡ back
drop-rev_append front back =
    ap (λ zs. drop (length front) zs) (rev_append-append front back)
    ∙ ap (λ n. drop n (rev_append front [] ++ back)) (turned-length front)
    ∙ drop-prefix (rev_append front []) back

drop-suc-rev_append :
    (front : Bytes) (x : ℕ) (back : Bytes)
    → drop (suc (length front)) (rev_append front (x ∷ back)) ≡ back
drop-suc-rev_append front x back =
    ap (λ zs. drop (suc (length front)) zs) (rev_append-append front (x ∷ back))
    ∙ ap (λ n. drop (suc n) (rev_append front [] ++ (x ∷ back))) (turned-length front)
    ∙ drop-suc-prefix (rev_append front []) x back

within : (front back : Bytes) → leb (length front) (length (rev_append front back)) ≡ true
within front back = let h = rev_append-length front back in ground (arith, h)

erase_at-rev_append :
    (front : Bytes) (x : ℕ) (back : Bytes)
    → erase_at (pos (length front)) (rev_append front (x ∷ back)) ≡ ok (rev_append front back)
unfolding erase_at
erase_at-rev_append front x back =
    rw (within front (x ∷ back), take-rev_append front (x ∷ back), drop-suc-rev_append front x back)
      (ap ok (sym (rev_append-append front back)))

insert_text-rev_append :
    (front ch back : Bytes)
    → insert_text (pos (length front)) ch (rev_append front back)
      ≡ ok (rev_append (rev_append ch front) back)
unfolding insert_text
insert_text-rev_append front ch back =
    rw (within front back, take-rev_append front back, drop-rev_append front back)
      (ap ok (
        ap (λ zs. zs ++ back) (sym (rev_append-append front ch) ∙ sym (rev_append-twice ch front))
        ∙ sym (rev_append-append (rev_append ch front) back)))

add_pos : (m n : ℕ) → pos m +ℤ pos n ≡ pos (m + n)
add_pos m n = ground arith

pub before :
    (front : Bytes) (x : ℕ) (back : Bytes)
    → ltb_ℤ (pos (length front)) (pos (length (rev_append front (x ∷ back)))) ≡ true
before front x back = let h = rev_append-length front (x ∷ back) in ground (arith, h)

not_before :
    (front : Bytes) → ltb_ℤ (pos (length front)) (pos (length (rev_append front []))) ≡ false
not_before front = let h = rev_append-length front [] in ground (arith, h)

abbrev pub overlay : Bytes → Bytes → ℕ → InputOverlay
overlay label buffer n = record { active = true; label = label; buffer = buffer; cursor = pos n }

with_cursor :
    (label buffer : Bytes) {m n : ℕ}
    → m ≡ n
    → ok (overlay label buffer m) ≡ ok (overlay label buffer n)
with_cursor label buffer e = ap (λ k. ok (overlay label buffer k)) e

pub edit_lem :
    (event : Event) (label : Bytes) (z : Bytes × Bytes)
    → edit event (shown label z) ≡ ok (shown label (edited event z))
unfolding edit
edit_lem backspace label ([], back) = refl
edit_lem backspace label (x ∷ front, back) =
    rw (positive (length front), pred_pos (length front), erase_at-rev_append front x back) refl
edit_lem arrow_left label ([], back) = refl
edit_lem arrow_left label (x ∷ front, back) =
    rw (positive (length front), pred_pos (length front)) refl
edit_lem arrow_right label (front, []) =
    let h = rev_append-length front [] in rw (not_before front) refl
edit_lem arrow_right label (front, x ∷ back) =
    rw (before front x back, succ_pos (length front)) refl
edit_lem home label (front, back) = refl
edit_lem end_key label (front, back) =
    rw (rev_append-twice back front, rev_append-length front back)
      (with_cursor label (rev_append front back) (omega (arith, rev_append-length back front)))
edit_lem (character ch) label (front, back) =
    rw (insert_text-rev_append front ch back, add_pos (length front) (length ch))
      (with_cursor label (rev_append (rev_append ch front) back)
        (omega (arith, rev_append-length ch front)))
edit_lem _ label (front, back) = refl
