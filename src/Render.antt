-- ===== src/Render.antt =====
-- src/render.cpp: the window of rows that a long list shows, and long text cut in the middle.
pub mod Window
pub mod Ellipsis
mod Tests
use bitcoin_tui.Base.{
  ellipsis, Bytes, ◌++◌, [], ◌∷◌, length, take, drop, leb, ◌+◌, ◌-◌, ◌%◌, ◌^◌, Outcome, ok, throw,
  out_of_range, bind, ℕ, suc, ◌/◌, ℤ, pos, negsuc, ◌-ℤ◌, leb_ℤ, min_ℤ, max_ℤ, if◌then◌else◌,
}

-- The first row shown and the number of rows shown.
pub record WindowSlice : Type 0 where
  pub top : ℤ
  pub win : ℤ

-- Division by two, rounded towards zero.
abbrev pub half : ℤ → ℤ
half (pos n) = pos (n / 2)
half (negsuc n) = pos 0 -ℤ pos (suc n / 2)

unfoldable pub centered_window : ℤ → ℤ → ℤ → WindowSlice
centered_window count selected max_visible =
    if leb_ℤ count (pos 0)
    then record { top = pos 0; win = pos 0 }
    else (let win = min_ℤ count max_visible in
        record {
          top =
              if leb_ℤ (pos 0) selected
              then min_ℤ (max_ℤ (pos 0) (selected -ℤ half win)) (count -ℤ win)
              else pos 0;
          win = win;
        })

-- s.substr(p), for a position and not an index: the end is one.
unfoldable pub substr_from : ℕ → Bytes → Outcome Bytes
substr_from p s = if leb p (length s) then ok (drop p s) else throw out_of_range

-- `value.size() - suffix` is of 64 bits and wraps around.
unfoldable pub ellipsize_middle : Bytes → ℕ → ℕ → ℕ → Outcome Bytes
unfolding substr_from
ellipsize_middle value max_len prefix suffix =
    if leb (length value) max_len
    then ok value
    else bind (substr_from ((length value + 2 ^ 64 - suffix) % 2 ^ 64) value)
        (λ rest. ok (take prefix value ++ (ellipsis ++ rest)))
