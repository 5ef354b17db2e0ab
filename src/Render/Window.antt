-- ===== src/Render/Window.antt =====
-- src/render.cpp: the window lies within the list and shows the row that is selected.
use bitcoin_tui.Base.{ℕ, ◌<◌, ℤ, pos, negsuc, ◌+ℤ◌, ◌≤ℤ◌, max_ℤ, arith}
use bitcoin_tui.Render.{WindowSlice, centered_window}

-- The window begins within the list and ends within it, and row `i` is shown.
pub record Shows (count i : ℤ) (w : WindowSlice) : Type 0 where
  pub begins : pos 0 ≤ℤ w.top
  pub ends : (w.top +ℤ w.win) ≤ℤ count
  pub from : w.top ≤ℤ i
  pub upto : (i +ℤ pos 1) ≤ℤ (w.top +ℤ w.win)

-- Where a row of the list is selected and there is room for one row or more, the window lies within
-- the list and shows the row selected.
pub centered_window-Shows :
    (count selected room : ℕ)
    → selected < count
    → 0 < room
    → Shows (pos count) (pos selected) (centered_window (pos count) (pos selected) (pos room))
unfolding centered_window
centered_window-Shows count selected room h k = record {
  begins = ground arith;
  ends = ground arith;
  from = ground arith;
  upto = ground arith;
}

-- The rows shown are rows of the list.
pub record Within (count : ℤ) (w : WindowSlice) : Type 0 where
  pub some_rows : pos 0 ≤ℤ w.win
  pub first : pos 0 ≤ℤ w.top
  pub last : (w.top +ℤ w.win) ≤ℤ max_ℤ (pos 0) count

shown-Within :
    (count selected room : ℕ)
    → Within (pos count) (centered_window (pos count) (pos selected) (pos room))
unfolding centered_window
shown-Within count selected room = record {
  some_rows = ground arith;
  first = ground arith;
  last = ground arith;
}

unselected-Within :
    (count selected room : ℕ)
    → Within (pos count) (centered_window (pos count) (negsuc selected) (pos room))
unfolding centered_window
unselected-Within count selected room = record {
  some_rows = ground arith;
  first = ground arith;
  last = ground arith;
}

empty-Within :
    (count : ℕ) (selected : ℤ) (room : ℕ)
    → Within (negsuc count) (centered_window (negsuc count) selected (pos room))
unfolding centered_window
empty-Within count selected room = record {
  some_rows = ground arith;
  first = ground arith;
  last = ground arith;
}

-- For every number of rows and every selection, negative ones and those past the end included, a
-- window with room for none or more rows lies within the list; for a negative number of rows, within
-- the empty list.
pub centered_window-Within :
    (count selected : ℤ) (room : ℕ) → Within count (centered_window count selected (pos room))
centered_window-Within (pos count) (pos selected) room = shown-Within count selected room
centered_window-Within (pos count) (negsuc selected) room = unselected-Within count selected room
centered_window-Within (negsuc count) selected room = empty-Within count selected room
