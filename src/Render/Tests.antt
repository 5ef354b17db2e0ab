-- ===== src/Render/Tests.antt =====
-- Runs of src/render.cpp.
use bitcoin_tui.Base.{codes, throw, out_of_range, pos, arith, ◌≡◌, refl}
use bitcoin_tui.Render.{substr_from, ellipsize_middle, centered_window}
use bitcoin_tui.Render.Window.{Shows, centered_window-Shows}

centered_window_end : (centered_window (pos 30) (pos 28) (pos 10)).top ≡ pos 20
unfolding centered_window
centered_window_end = refl

centered_window_middle : (centered_window (pos 30) (pos 12) (pos 10)).top ≡ pos 7
unfolding centered_window
centered_window_middle = refl

centered_window-Shows_example : Shows (pos 30) (pos 28) (centered_window (pos 30) (pos 28) (pos 10))
centered_window-Shows_example = centered_window-Shows 30 28 10 (omega arith) (omega arith)

-- A back longer than the text is an exception of the standard library.
ellipsize_middle_throws : ellipsize_middle (codes "abc") 2 1 4 ≡ throw out_of_range
unfolding ellipsize_middle substr_from
ellipsize_middle_throws = refl
