-- ===== src/Mempool/Keys.antt =====
-- src/tabs/mempool.cpp: each event handler keeps the tab well formed.
use bitcoin_tui.Base.{
  max_ℤ, ℕ, Bool, true, false, ◌&&◌, not, List, [], ◌∷◌, Bytes, length, ℤ, pos, negsuc, ◌-ℤ◌, ◌≤ℤ◌,
  ltb_ℤ, leb_ℤ, if◌then◌else◌, ◌≡◌, refl, arith, ◌==◌,
}
use bitcoin_tui.State.{TxSearchState, empty, io_max_sel, io_inputs_idx, io_outputs_idx}
use bitcoin_tui.Mempool.{
  Event, arrow_down, arrow_up, arrow_left, arrow_right, enter, escape, character, outputs_key,
  inputs_key, in_overlay, handle_tx_overlay, moved, block_key, is_confirmed_tx, same_ℤ,
  handle_focused_event, io_moved, handle_io_nav, handle_enter, back, handle_escape,
}
use bitcoin_tui.Mempool.Thread.{MempoolTab}
use bitcoin_tui.Mempool.Selection.{
  InSel, Selected, AllSelected, WellFormed, Keeps, down-InSel, up-InSel, last-ge, nothing-InSel,
  with_state, with_sel, with_exit, with_io, with_input, with_output, keeps, if-Keeps,
  no_search-Selected, io_max_sel-ge,
}
use bitcoin_tui.Mempool.Trigger.{search_if_any-Keeps}

module _ {D : Type 0} (zero_double : D) (search : Bytes → Bool → ℤ → TxSearchState D)
    (search-Selected : (query : Bytes) (is_height : Bool) (tip : ℤ)
      → Selected (search query is_height tip)) where
  outputs_key-Keeps :
      (event : Event) (tab : MempoolTab D)
      → WellFormed tab
      → Keeps (outputs_key zero_double search event tab)
  unfolding outputs_key
  outputs_key-Keeps escape tab w = keeps (with_output tab false _ w w.selected.shown.output)
  outputs_key-Keeps arrow_down tab w = keeps (
      with_output tab _ _ w (
        down-InSel tab.state.output_overlay_sel _ w.selected.shown.output.above
          (last-ge (length tab.state.vout_list))))
  outputs_key-Keeps arrow_up tab w =
      keeps (with_output tab _ _ w (up-InSel _ _ w.selected.shown.output))
  outputs_key-Keeps (character c) tab w = if-Keeps (c == b'q') (keeps (with_exit tab w)) (keeps w)
  outputs_key-Keeps arrow_left tab w = keeps w
  outputs_key-Keeps arrow_right tab w = keeps w
  outputs_key-Keeps enter tab w = keeps w

  inputs_key-Keeps :
      (event : Event) (tab : MempoolTab D)
      → WellFormed tab
      → Keeps (inputs_key zero_double search event tab)
  unfolding inputs_key
  inputs_key-Keeps escape tab w = keeps (with_input tab false _ w w.selected.shown.input)
  inputs_key-Keeps arrow_down tab w = keeps (
      with_input tab _ _ w (
        down-InSel tab.state.input_overlay_sel _ w.selected.shown.input.above
          (last-ge (length tab.state.vin_list))))
  inputs_key-Keeps arrow_up tab w =
      keeps (with_input tab _ _ w (up-InSel _ _ w.selected.shown.input))
  inputs_key-Keeps (character c) tab w = if-Keeps (c == b'q') (keeps (with_exit tab w)) (keeps w)
  inputs_key-Keeps arrow_left tab w = keeps w
  inputs_key-Keeps arrow_right tab w = keeps w
  inputs_key-Keeps enter tab w = search_if_any-Keeps zero_double search search-Selected _ tab w

  in_overlay-Keeps : (r : Bool × MempoolTab D) → Keeps r → Keeps (in_overlay zero_double search r)
  unfolding in_overlay
  in_overlay-Keeps (b, tab) k = keeps k.well

  -- The overlays keep the tab well formed.
  pub handle_tx_overlay-Keeps :
      (event : Event) (tab : MempoolTab D)
      → WellFormed tab
      → Keeps (handle_tx_overlay zero_double search event tab)
  unfolding handle_tx_overlay
  handle_tx_overlay-Keeps event tab w =
      if-Keeps (is_confirmed_tx tab.state && tab.state.outputs_overlay_open)
        (in_overlay-Keeps _ (outputs_key-Keeps event tab w))
        (if-Keeps (is_confirmed_tx tab.state && tab.state.inputs_overlay_open)
          (in_overlay-Keeps _ (inputs_key-Keeps event tab w)) (keeps w))

  moved-Keeps :
      (n : ℕ) (sel : ℤ) (tab : MempoolTab D)
      → ((n == 0) ≡ false → negsuc 0 ≤ℤ sel)
      → WellFormed tab
      → Keeps (moved zero_double search n sel tab)
  unfolding moved
  moved-Keeps n sel tab h w =
      if-Keeps (ltb_ℤ tab.mempool_sel (pos 0)) (keeps w) (some_blocks (n == 0) h)
    where
      some_blocks :
          (b : Bool)
          → (b ≡ false → negsuc 0 ≤ℤ sel)
          → Keeps (
              if b
              then (true, record tab { mempool_sel = negsuc 0 })
              else (true, record tab { mempool_sel = sel }))
      some_blocks true h = keeps (with_sel tab (negsuc 0) w (omega arith))
      some_blocks false h = keeps (with_sel tab sel w (h refl))

  block_key-Keeps :
      (event : Event) (tab : MempoolTab D)
      → WellFormed tab
      → Keeps (block_key zero_double search event tab)
  unfolding block_key
  block_key-Keeps arrow_down tab w =
      if-Keeps (ltb_ℤ tab.mempool_sel (pos 0) && not (length tab.recent_blocks == 0))
        (keeps (with_sel tab (pos 0) w (omega arith))) (keeps w)
  block_key-Keeps arrow_left tab w =
      moved-Keeps (length tab.recent_blocks) _ tab (λ h. to_left tab.mempool_sel) w
    where
      to_left : (i : ℤ) → negsuc 0 ≤ℤ max_ℤ (i -ℤ pos 1) (pos 0)
      to_left i = ground arith
  block_key-Keeps arrow_right tab w =
      moved-Keeps (length tab.recent_blocks) _ tab
        (λ h.
          InSel.above
            (down-InSel tab.mempool_sel _ w.selected.block (last-ge (length tab.recent_blocks))))
        w
  block_key-Keeps enter tab w = search_if_any-Keeps zero_double search search-Selected _ tab w
  block_key-Keeps escape tab w =
      if-Keeps (ltb_ℤ tab.mempool_sel (pos 0)) (keeps w)
        (keeps (with_sel tab (negsuc 0) w (omega arith)))
  block_key-Keeps arrow_up tab w = keeps w
  block_key-Keeps (character c) tab w = keeps w

  pub handle_focused_event-Keeps :
      (event : Event) (tab : MempoolTab D)
      → WellFormed tab
      → Keeps (handle_focused_event zero_double search event tab)
  unfolding handle_focused_event
  handle_focused_event-Keeps event tab w =
      if-Keeps (not (empty tab.state.txid)) (keeps w) (block_key-Keeps event tab w)

  io_moved-Keeps :
      (sel : ℤ) (tab : MempoolTab D)
      → InSel sel (io_max_sel tab.state)
      → WellFormed tab
      → Keeps (io_moved zero_double search sel tab)
  unfolding io_moved
  io_moved-Keeps sel tab h w =
      if-Keeps (is_confirmed_tx tab.state) (keeps (with_io tab sel w h)) (keeps w)

  pub handle_io_nav-Keeps :
      (event : Event) (tab : MempoolTab D)
      → WellFormed tab
      → Keeps (handle_io_nav zero_double search event tab)
  unfolding handle_io_nav
  handle_io_nav-Keeps arrow_down tab w =
      io_moved-Keeps _ tab
        (down-InSel tab.state.io_selected _ w.selected.shown.io.above (io_max_sel-ge tab.state)) w
  handle_io_nav-Keeps arrow_up tab w = io_moved-Keeps _ tab (up-InSel _ _ w.selected.shown.io) w
  handle_io_nav-Keeps _ tab w = keeps w

  pub handle_enter-Keeps :
      (event : Event) (tab : MempoolTab D)
      → WellFormed tab
      → Keeps (handle_enter zero_double search event tab)
  unfolding handle_enter
  handle_enter-Keeps enter tab w =
      let ss = tab.state in
      if-Keeps (not (is_confirmed_tx ss)) (keeps w) (
        if-Keeps (same_ℤ ss.io_selected (io_inputs_idx ss) && leb_ℤ (pos 0) (io_inputs_idx ss))
          (keeps (with_input tab true (negsuc 0) w (nothing-InSel (length ss.vin_list))))
          (if-Keeps (same_ℤ ss.io_selected (io_outputs_idx ss) && leb_ℤ (pos 0) (io_outputs_idx ss))
            (keeps (with_output tab true (negsuc 0) w (nothing-InSel (length ss.vout_list))))
            (if-Keeps (same_ℤ ss.io_selected (pos 0))
              (search_if_any-Keeps zero_double search search-Selected ss.blockhash tab w)
              (keeps w))))
  handle_enter-Keeps _ tab w = keeps w

  back-Keeps :
      (history : List (TxSearchState D)) (tab : MempoolTab D)
      → AllSelected history
      → WellFormed tab
      → Keeps (back zero_double search history tab)
  unfolding back
  back-Keeps (ss ∷ history) tab h w =
      let k = w.selected in
      keeps (record {
        selected = record { shown = h.0; kept = h.1; found = k.found; block = k.block };
        fits = w.fits;
      })
  back-Keeps [] tab h w =
      if-Keeps (not (empty tab.state.txid))
        (keeps (with_state tab _ w (no_search-Selected zero_double))) (keeps w)

  pub handle_escape-Keeps :
      (event : Event) (tab : MempoolTab D)
      → WellFormed tab
      → Keeps (handle_escape zero_double search event tab)
  unfolding handle_escape
  handle_escape-Keeps escape tab w = back-Keeps tab.history tab w.selected.kept w
  handle_escape-Keeps _ tab w = keeps w
