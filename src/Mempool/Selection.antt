-- ===== src/Mempool/Selection.antt =====
-- src/tabs/mempool.cpp: the selections stay within what there is to select.
use bitcoin_tui.Base.{
  min_ℤ, max_ℤ, ℕ, Bool, true, false, List, [], ◌∷◌, length, ℤ, pos, negsuc, ◌+ℤ◌, ◌-ℤ◌, ◌≤ℤ◌,
  if◌then◌else◌, ◌≡◌, arith,
}
use bitcoin_tui.State.{TxSearchState, no_search, io_max_sel}
use bitcoin_tui.Mempool.Thread.{Thread, searching_for, found_result, MempoolTab}

-- A selection among rows up to `n`; -1 is none.
pub record InSel (i n : ℤ) : Type 0 where
  pub above : negsuc 0 ≤ℤ i
  pub below : i ≤ℤ n

pub down-InSel : (i n : ℤ) → negsuc 0 ≤ℤ i → negsuc 0 ≤ℤ n → InSel (min_ℤ (i +ℤ pos 1) n) n
down-InSel (pos i) (pos n) hi hn = record { above = ground arith; below = ground arith }
down-InSel (pos i) (negsuc n) hi hn = record { above = ground arith; below = ground arith }
down-InSel (negsuc i) (pos n) hi hn = record { above = ground arith; below = ground arith }
down-InSel (negsuc i) (negsuc n) hi hn = record { above = ground arith; below = ground arith }

pub up-InSel : (i n : ℤ) → InSel i n → InSel (max_ℤ (i -ℤ pos 1) (negsuc 0)) n
up-InSel (pos i) (pos n) h =
    let b = h.below in record { above = ground arith; below = ground arith }
up-InSel (pos i) (negsuc n) h =
    let b = h.below in record { above = ground arith; below = ground arith }
up-InSel (negsuc i) (pos n) h =
    let b = h.below in record { above = ground arith; below = ground arith }
up-InSel (negsuc i) (negsuc n) h =
    let b = h.below in record { above = ground arith; below = ground arith }

pub last-ge : (n : ℕ) → negsuc 0 ≤ℤ (pos n -ℤ pos 1)
last-ge n = ground arith

pub nothing-InSel : (n : ℕ) → InSel (negsuc 0) (pos n -ℤ pos 1)
nothing-InSel n = record { above = omega arith; below = last-ge n }

module _ {D : Type 0} where
  -- The three selections of a search state, each among its own rows.
  pub record Selected (ss : TxSearchState D) : Type 0 where
    pub io : InSel ss.io_selected (io_max_sel ss)
    pub input : InSel ss.input_overlay_sel (pos (length ss.vin_list) -ℤ pos 1)
    pub output : InSel ss.output_overlay_sel (pos (length ss.vout_list) -ℤ pos 1)

  pub io_max_sel-ge : (ss : TxSearchState D) → negsuc 0 ≤ℤ io_max_sel ss
  unfolding io_max_sel
  io_max_sel-ge ss = ground arith

  abbrev pub AllSelected : List (TxSearchState D) → Type 0
  AllSelected [] = Unit
  AllSelected (ss ∷ history) = Selected ss × AllSelected history

  abbrev pub ThreadSelected : Thread D → Type 0
  ThreadSelected (found_result ss) = Selected ss
  ThreadSelected _ = Unit

  pub record Kept (tab : MempoolTab D) : Type 0 where
    pub shown : Selected tab.state
    pub kept : AllSelected tab.history
    pub found : ThreadSelected tab.search_thread
    pub block : negsuc 0 ≤ℤ tab.mempool_sel

  -- The flag is set while the thread searches, and only then.
  abbrev pub ThreadFits : Thread D → Bool → Type 0
  ThreadFits (searching_for query is_height tip) flag = flag ≡ true
  ThreadFits _ flag = flag ≡ false

  pub record WellFormed (tab : MempoolTab D) : Type 0 where
    pub selected : Kept tab
    pub fits : ThreadFits tab.search_thread tab.search_in_flight

  pub with_state :
      (tab : MempoolTab D) (ss : TxSearchState D)
      → WellFormed tab
      → Selected ss
      → WellFormed (record tab { state = ss })
  with_state tab ss w h =
      let k = w.selected in
      record {
        selected = record { shown = h; kept = k.kept; found = k.found; block = k.block };
        fits = w.fits;
      }

  pub with_sel :
      (tab : MempoolTab D) (i : ℤ)
      → WellFormed tab
      → negsuc 0 ≤ℤ i
      → WellFormed (record tab { mempool_sel = i })
  with_sel tab i w h =
      let k = w.selected in
      record {
        selected = record { shown = k.shown; kept = k.kept; found = k.found; block = h };
        fits = w.fits;
      }

  pub with_io :
      (tab : MempoolTab D) (i : ℤ)
      → WellFormed tab
      → InSel i (io_max_sel tab.state)
      → WellFormed (record tab { state = record (tab.state) { io_selected = i } })
  unfolding io_max_sel
  with_io tab i w h =
      let s = w.selected.shown in
      with_state tab (record (tab.state) { io_selected = i }) w
        (record { io = h; input = s.input; output = s.output })

  -- The inputs overlay open or not, with another selection in it; the same for the outputs.
  pub with_input :
      (tab : MempoolTab D) (o : Bool) (i : ℤ)
      → WellFormed tab
      → InSel i (pos (length tab.state.vin_list) -ℤ pos 1)
      → WellFormed (record tab {
        state = record (tab.state) { inputs_overlay_open = o; input_overlay_sel = i };
      })
  unfolding io_max_sel
  with_input tab o i w h =
      let s = w.selected.shown in
      with_state tab (record (tab.state) { inputs_overlay_open = o; input_overlay_sel = i }) w
        (record { io = s.io; input = h; output = s.output })

  pub with_output :
      (tab : MempoolTab D) (o : Bool) (i : ℤ)
      → WellFormed tab
      → InSel i (pos (length tab.state.vout_list) -ℤ pos 1)
      → WellFormed (record tab {
        state = record (tab.state) { outputs_overlay_open = o; output_overlay_sel = i };
      })
  unfolding io_max_sel
  with_output tab o i w h =
      let s = w.selected.shown in
      with_state tab (record (tab.state) { outputs_overlay_open = o; output_overlay_sel = i }) w
        (record { io = s.io; input = s.input; output = h })

  pub with_exit : (tab : MempoolTab D) → WellFormed tab → WellFormed (record tab { exiting = true })
  with_exit tab w =
      let k = w.selected in
      record {
        selected = record { shown = k.shown; kept = k.kept; found = k.found; block = k.block };
        fits = w.fits;
      }

  -- What a handler returns: whether it handled the event, and the tab.
  pub record Keeps {B : Type 0} (r : B × MempoolTab D) : Type 0 where
    pub well : WellFormed r.1

  pub keeps : {B : Type 0} {b : B} {tab : MempoolTab D} → WellFormed tab → Keeps (b, tab)
  keeps w = record { well = w }

  pub if-Keeps :
      {B : Type 0} (b : Bool) {r s : B × MempoolTab D}
      → Keeps r
      → Keeps s
      → Keeps (if b then r else s)
  if-Keeps true hr hs = hr
  if-Keeps false hr hs = hs

  pub no_search-Selected : (zero_double : D) → Selected (no_search zero_double)
  no_search-Selected zero_double = record {
    io = record { above = omega arith; below = io_max_sel-ge (no_search zero_double) };
    input = nothing-InSel 0;
    output = nothing-InSel 0;
  }
