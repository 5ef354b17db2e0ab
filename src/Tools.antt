-- ===== src/Tools.antt =====
-- src/tabs/tools.cpp: ToolsTab, its input and its broadcast thread.
pub mod Broadcast
pub mod Race
mod Tests
use bitcoin_tui.Base.{
  Bool, true, false, not, ◌&&◌, List, [], ◌∷◌, ◌++◌, Bytes, codes, same_bytes, ℤ, pos, negsuc, ◌+ℤ◌,
  ◌-ℤ◌, leb_ℤ, ltb_ℤ, min_ℤ, max_ℤ, if◌then◌else◌, Exception, Outcome, ok, throw, out_of_fuel, bind,
  ◌⊎◌, inl, inr,
}
use bitcoin_tui.State.{empty}
use bitcoin_tui.Format.{trimmed}
use bitcoin_tui.Json.Value.{Json}
use bitcoin_tui.Json.Access.{get_string, index}

-- The events that the handlers tell apart.
pub data Event : Type 0 where
  escape return_key backspace tab_key tab_reverse arrow_left arrow_right arrow_up arrow_down : Event
  character : Bytes → Event
  other_event : Event

pub record BroadcastState : Type 0 where
  pub hex : Bytes
  pub submitting : Bool
  pub result_txid : Bytes
  pub result_error : Bytes
  pub success : Bool
  pub has_result : Bool

-- The broadcast thread: none, or joined; on its way; or behind `broadcast_in_flight_ = false`, with
-- the result that it has not stored yet.
pub data BroadcastThread : Type 0 where
  idle : BroadcastThread
  sending : Bytes → BroadcastThread
  sent : BroadcastState → BroadcastThread

-- The members, what the thread looks at, and what the tab has done outside: the transactions sent
-- to the node, the last first, the searches started, and whether the program was told to end.
pub record ToolsTab : Type 0 where
  pub tools_input_active : Bool
  pub tools_sel : ℤ
  pub tools_hex_str : Bytes
  pub broadcast_in_flight : Bool
  pub broadcast_state : BroadcastState
  pub broadcast_thread : BroadcastThread
  pub running : Bool
  pub submitted : List Bytes
  pub searches : List Bytes
  pub shut_down : Bool

-- `send` is what bc.call("sendrawtransaction", {hex}) comes back with, and `what` e.what().
module _ {D : Type 0} (send : Bytes → Exception ⊎ Json D) (what : Exception → Bytes) where
  txid_of : Exception ⊎ Json D → Outcome Bytes
  txid_of (inl e) = throw e
  txid_of (inr res) = get_string (index (codes "result") res)

  -- `out_of_fuel` does not occur here.
  with_txid : Bytes → Outcome Bytes → BroadcastState
  with_txid hex (ok txid) = record {
    hex = hex;
    submitting = false;
    result_txid = txid;
    result_error = [];
    success = true;
    has_result = true;
  }
  with_txid hex (throw e) = record {
    hex = hex;
    submitting = false;
    result_txid = [];
    result_error = what e;
    success = false;
    has_result = true;
  }
  with_txid hex out_of_fuel = record {
    hex = hex;
    submitting = false;
    result_txid = [];
    result_error = [];
    success = false;
    has_result = true;
  }

  -- The result of the thread.
  unfoldable pub result_of_send : Bytes → BroadcastState
  unfolding with_txid txid_of
  result_of_send hex = with_txid hex (txid_of (send hex))

  pub thread_step : BroadcastThread → ToolsTab → ToolsTab
  thread_step idle tab = tab
  thread_step (sending hex) tab = record tab {
    broadcast_thread = sent (result_of_send hex);
    broadcast_in_flight = false;
    submitted = hex ∷ tab.submitted;
  }
  thread_step (sent result) tab =
      if tab.running
      then record tab { broadcast_state = result; broadcast_thread = idle }
      else record tab { broadcast_thread = idle }

  -- The thread's steps: the call ends and the flag is cleared; then the result is stored.
  unfoldable pub run_thread : ToolsTab → ToolsTab
  unfolding thread_step
  run_thread tab = thread_step tab.broadcast_thread tab

  -- broadcast_thread_.join()
  unfoldable pub join : ToolsTab → ToolsTab
  unfolding run_thread
  join tab = run_thread (run_thread tab)

  pub launch : Bytes → ToolsTab → ToolsTab
  launch hex tab = record tab { broadcast_thread = sending hex }

  unfoldable pub trigger_broadcast : Bytes → ToolsTab → ToolsTab
  unfolding launch join
  trigger_broadcast hex tab =
      if tab.broadcast_in_flight
      then tab
      else launch hex (
          join (record tab {
            broadcast_in_flight = true;
            broadcast_state = record {
              hex = hex;
              submitting = true;
              result_txid = [];
              result_error = [];
              success = false;
              has_result = false;
            };
          }))

  pub open_broadcast_dialog : ToolsTab → ToolsTab
  open_broadcast_dialog tab = record tab {
    tools_input_active = true;
    tools_sel = pos 0;
    tools_hex_str = [];
  }

  do_shutdown : ToolsTab → ToolsTab
  do_shutdown tab = record tab { shut_down = true }

  pub close_dialog : ToolsTab → ToolsTab
  close_dialog tab = record tab { tools_input_active = false; tools_hex_str = [] }

  pop_back : Bytes → Bytes
  pop_back [] = []
  pop_back (c ∷ []) = []
  pop_back (c ∷ s) = c ∷ pop_back s

  input_key : Event → ToolsTab → Bool × ToolsTab
  unfolding close_dialog trigger_broadcast pop_back
  input_key escape tab = (true, close_dialog tab)
  input_key return_key tab =
      let hex = trimmed tab.tools_hex_str in
      (true, if not (empty hex) then trigger_broadcast hex (close_dialog tab) else close_dialog tab)
  input_key backspace tab = (true, record tab { tools_hex_str = pop_back tab.tools_hex_str })
  input_key tab_key tab = (true, tab)
  input_key tab_reverse tab = (true, tab)
  input_key arrow_left tab = (true, tab)
  input_key arrow_right tab = (true, tab)
  input_key (character ch) tab = (true, record tab { tools_hex_str = tab.tools_hex_str ++ ch })
  input_key _ tab = (false, tab)

  unfoldable pub handle_tools_input : Event → ToolsTab → Bool × ToolsTab
  unfolding input_key
  handle_tools_input event tab =
      if not tab.tools_input_active then (false, tab) else input_key event tab

  pub has_result_row : ToolsTab → Bool
  has_result_row tab = tab.broadcast_state.has_result && tab.broadcast_state.success

  pub shutdown_idx : ToolsTab → ℤ
  unfolding has_result_row
  shutdown_idx tab = if has_result_row tab then pos 2 else pos 1

  same_ℤ : ℤ → ℤ → Bool
  same_ℤ x y = leb_ℤ x y && leb_ℤ y x

  -- trigger_search_(txid, true)
  search_result : ToolsTab → ToolsTab
  search_result tab =
      let txid = tab.broadcast_state.result_txid in
      if not (empty txid) then record tab { searches = txid ∷ tab.searches } else tab

  -- Enter.
  select : ToolsTab → ToolsTab
  unfolding open_broadcast_dialog do_shutdown search_result has_result_row shutdown_idx same_ℤ
  select tab =
      if same_ℤ tab.tools_sel (pos 0)
      then open_broadcast_dialog tab
      else if same_ℤ tab.tools_sel (shutdown_idx tab)
      then do_shutdown tab
      else if same_ℤ tab.tools_sel (pos 1) && has_result_row tab
      then search_result tab
      else tab

  unfoldable pub handle_focused_event : Event → ToolsTab → Bool × ToolsTab
  unfolding open_broadcast_dialog do_shutdown select shutdown_idx
  handle_focused_event return_key tab = (true, select tab)
  handle_focused_event arrow_down tab =
      (true, record tab { tools_sel = min_ℤ (tab.tools_sel +ℤ pos 1) (shutdown_idx tab) })
  handle_focused_event arrow_up tab =
      (true, record tab { tools_sel = max_ℤ (tab.tools_sel -ℤ pos 1) (pos 0) })
  handle_focused_event (character ch) tab =
      if same_bytes ch (codes "b")
      then (true, open_broadcast_dialog tab)
      else if same_bytes ch (codes "Q")
      then (true, do_shutdown tab)
      else (false, tab)
  handle_focused_event _ tab = (false, tab)
