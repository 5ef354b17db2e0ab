-- ===== src/Mempool.antt =====
-- src/tabs/mempool.cpp: the event handlers of the Mempool tab.
-- Drawing and the requests to redraw are left out.
pub mod Thread
pub mod Selection
pub mod Trigger
pub mod Keys
pub mod Steps
pub mod History
mod Tests
use bitcoin_tui.Base.{
  min_ℤ, max_ℤ, ℕ, suc, Bool, true, false, ◌&&◌, not, List, [], ◌∷◌, Bytes, length, get_elem?,
  is_digit, ℤ, pos, negsuc, ◌+ℤ◌, ◌-ℤ◌, leb_ℤ, ltb_ℤ, to_string, if◌then◌else◌, Option, none, some,
  ◌==◌,
}
use bitcoin_tui.State.{
  TxVin, TxVout, TxSearchState, no_search, empty, all_of, io_inputs_idx, io_outputs_idx, io_max_sel,
}
use bitcoin_tui.Mempool.Thread.{MempoolTab, trigger_search}

-- The keys that the handlers tell apart.
pub data Event : Type 0 where
  arrow_down arrow_up arrow_left arrow_right enter escape : Event
  character : ℕ → Event

abbrev same_ℤ : ℤ → ℤ → Bool
same_ℤ a b = leb_ℤ a b && leb_ℤ b a

-- A confirmed transaction is shown.
abbrev pub is_confirmed_tx : {D : Type 0} → TxSearchState D → Bool
is_confirmed_tx ss = ss.found && ss.confirmed && not ss.is_block

-- With the search of the thread as a parameter, and the double 0.0.
module _ {D : Type 0} (zero_double : D) (search : Bytes → Bool → ℤ → TxSearchState D) where
  -- vin_list[sel].txid, if there is such an input and it is no coinbase.
  txid_at : Option TxVin → Bytes
  txid_at none = []
  txid_at (some vin) = if vin.is_coinbase then [] else vin.txid

  selected_input : ℤ → List TxVin → Bytes
  unfolding txid_at
  selected_input (pos i) vins = txid_at (get_elem? vins i)
  selected_input (negsuc i) vins = []

  unfoldable pub search_if_any : Bytes → MempoolTab D → Bool × MempoolTab D
  unfolding trigger_search
  search_if_any query tab =
      if not (empty query)
      then (true, trigger_search zero_double search query false tab)
      else (false, tab)

  unfoldable pub outputs_key : Event → MempoolTab D → Bool × MempoolTab D
  outputs_key escape tab =
      (true, record tab { state = record (tab.state) { outputs_overlay_open = false } })
  outputs_key arrow_down tab =
      let n = pos (length tab.state.vout_list) in
      (
        true,
        record tab {
          state = record (tab.state) {
            output_overlay_sel = min_ℤ (tab.state.output_overlay_sel +ℤ pos 1) (n -ℤ pos 1);
          };
        },
      )
  outputs_key arrow_up tab = (
    true,
    record tab {
      state = record (tab.state) {
        output_overlay_sel = max_ℤ (tab.state.output_overlay_sel -ℤ pos 1) (negsuc 0);
      };
    },
  )
  outputs_key (character c) tab =
      if c == b'q' then (true, record tab { exiting = true }) else (false, tab)
  outputs_key _ tab = (false, tab)

  unfoldable pub inputs_key : Event → MempoolTab D → Bool × MempoolTab D
  unfolding selected_input search_if_any
  inputs_key escape tab =
      (true, record tab { state = record (tab.state) { inputs_overlay_open = false } })
  inputs_key arrow_down tab =
      let n = pos (length tab.state.vin_list) in
      (
        true,
        record tab {
          state = record (tab.state) {
            input_overlay_sel = min_ℤ (tab.state.input_overlay_sel +ℤ pos 1) (n -ℤ pos 1);
          };
        },
      )
  inputs_key arrow_up tab = (
    true,
    record tab {
      state = record (tab.state) {
        input_overlay_sel = max_ℤ (tab.state.input_overlay_sel -ℤ pos 1) (negsuc 0);
      };
    },
  )
  inputs_key enter tab =
      search_if_any (selected_input tab.state.input_overlay_sel tab.state.vin_list) tab
  inputs_key (character c) tab =
      if c == b'q' then (true, record tab { exiting = true }) else (false, tab)
  inputs_key _ tab = (false, tab)

  in_overlay : Bool × MempoolTab D → Option Bool × MempoolTab D
  in_overlay (handled, tab) = (some handled, tab)

  -- Whether the overlays handled the event; `none` outside them.
  unfoldable pub handle_tx_overlay : Event → MempoolTab D → Option Bool × MempoolTab D
  unfolding in_overlay inputs_key outputs_key
  handle_tx_overlay event tab =
      if is_confirmed_tx tab.state && tab.state.outputs_overlay_open
      then in_overlay (outputs_key event tab)
      else if is_confirmed_tx tab.state && tab.state.inputs_overlay_open
      then in_overlay (inputs_key event tab)
      else (none, tab)

  height_at : ℤ → List ℤ → Bytes
  height_at (negsuc i) heights = []
  height_at (pos i) heights = elim (get_elem? heights i) [ none ↦ [] | some h ↦ to_string h ]

  -- Left and right among `n` blocks.
  moved : ℕ → ℤ → MempoolTab D → Bool × MempoolTab D
  moved n sel tab =
      if ltb_ℤ tab.mempool_sel (pos 0)
      then (false, tab)
      else if n == 0
      then (true, record tab { mempool_sel = negsuc 0 })
      else (true, record tab { mempool_sel = sel })

  block_key : Event → MempoolTab D → Bool × MempoolTab D
  unfolding height_at search_if_any moved
  block_key arrow_down tab =
      if ltb_ℤ tab.mempool_sel (pos 0) && not (length tab.recent_blocks == 0)
      then (true, record tab { mempool_sel = pos 0 })
      else (false, tab)
  block_key arrow_left tab =
      moved (length tab.recent_blocks) (max_ℤ (tab.mempool_sel -ℤ pos 1) (pos 0)) tab
  block_key arrow_right tab =
      moved (length tab.recent_blocks)
        (min_ℤ (tab.mempool_sel +ℤ pos 1) (pos (length tab.recent_blocks) -ℤ pos 1)) tab
  block_key enter tab = search_if_any (height_at tab.mempool_sel tab.recent_blocks) tab
  block_key escape tab =
      if ltb_ℤ tab.mempool_sel (pos 0)
      then (false, tab)
      else (true, record tab { mempool_sel = negsuc 0 })
  block_key _ tab = (false, tab)

  unfoldable pub handle_focused_event : Event → MempoolTab D → Bool × MempoolTab D
  unfolding block_key
  handle_focused_event event tab =
      if not (empty tab.state.txid) then (false, tab) else block_key event tab

  io_moved : ℤ → MempoolTab D → Bool × MempoolTab D
  io_moved sel tab =
      if is_confirmed_tx tab.state
      then (true, record tab { state = record (tab.state) { io_selected = sel } })
      else (false, tab)

  unfoldable pub handle_io_nav : Event → MempoolTab D → Bool × MempoolTab D
  unfolding io_moved io_max_sel
  handle_io_nav arrow_down tab =
      io_moved (min_ℤ (tab.state.io_selected +ℤ pos 1) (io_max_sel tab.state)) tab
  handle_io_nav arrow_up tab = io_moved (max_ℤ (tab.state.io_selected -ℤ pos 1) (negsuc 0)) tab
  handle_io_nav _ tab = (false, tab)

  unfoldable pub handle_enter : Event → MempoolTab D → Bool × MempoolTab D
  unfolding search_if_any io_inputs_idx io_outputs_idx
  handle_enter enter tab =
      let ss = tab.state in
      if not (is_confirmed_tx ss)
      then (false, tab)
      else if same_ℤ ss.io_selected (io_inputs_idx ss) && leb_ℤ (pos 0) (io_inputs_idx ss)
      then (
        true,
        record tab {
          state = record ss { inputs_overlay_open = true; input_overlay_sel = negsuc 0 };
        },
      )
      else if same_ℤ ss.io_selected (io_outputs_idx ss) && leb_ℤ (pos 0) (io_outputs_idx ss)
      then (
        true,
        record tab {
          state = record ss { outputs_overlay_open = true; output_overlay_sel = negsuc 0 };
        },
      )
      else if same_ℤ ss.io_selected (pos 0)
      then search_if_any ss.blockhash tab
      else (false, tab)
  handle_enter _ tab = (false, tab)

  back : List (TxSearchState D) → MempoolTab D → Bool × MempoolTab D
  back (ss ∷ history) tab = (true, record tab { state = ss; history = history })
  back [] tab =
      if not (empty tab.state.txid)
      then (true, record tab { state = no_search zero_double })
      else (false, tab)

  unfoldable pub handle_escape : Event → MempoolTab D → Bool × MempoolTab D
  unfolding back
  handle_escape escape tab = back tab.history tab
  handle_escape _ tab = (false, tab)
