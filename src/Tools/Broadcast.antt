-- ===== src/Tools/Broadcast.antt =====
-- src/tabs/tools.cpp: what becomes of a transaction that is typed in.
use bitcoin_tui.Base.{
  true, false, not, List, [], ◌∷◌, ◌++◌, Bytes, codes, compare_bytes, pos, if◌then◌else◌, Exception,
  ◌⊎◌, ◌≡◌, refl, ◌∙◌, ap,
}
use bitcoin_tui.State.{empty}
use bitcoin_tui.Format.{trimmed}
use bitcoin_tui.Json.Value.{Json}
use bitcoin_tui.Tools.{
  return_key, character, BroadcastState, idle, ToolsTab, result_of_send, thread_step, run_thread,
  join, launch, trigger_broadcast, handle_tools_input, handle_focused_event,
}

-- The texts put together, behind `s`.
abbrev pub typed : List Bytes → Bytes → Bytes
typed [] s = s
typed (ch ∷ chs) s = typed chs (s ++ ch)

module _ {D : Type 0} (send : Bytes → Exception ⊎ Json D) (what : Exception → Bytes) where
  -- The dialog with a text in it, and when it is closed.
  abbrev pub dialog : Bytes → ToolsTab → ToolsTab
  dialog s tab = record tab { tools_input_active = true; tools_sel = pos 0; tools_hex_str = s }

  abbrev pub without_dialog : ToolsTab → ToolsTab
  without_dialog tab = record tab {
    tools_input_active = false;
    tools_sel = pos 0;
    tools_hex_str = [];
  }

  type_all : List Bytes → ToolsTab → ToolsTab
  type_all [] tab = tab
  type_all (ch ∷ chs) tab = type_all chs (handle_tools_input send what (character ch) tab).1

  -- The key b, the characters, and Enter.
  unfoldable pub broadcast : List Bytes → ToolsTab → ToolsTab
  unfolding type_all
  broadcast chs tab =
      let opened = (handle_focused_event send what (character (codes "b")) tab).1 in
      (handle_tools_input send what return_key (type_all chs opened)).1

  type_all-dialog :
      (chs : List Bytes) (s : Bytes) (tab : ToolsTab)
      → type_all chs (dialog s tab) ≡ dialog (typed chs s) tab
  unfolding type_all handle_tools_input
  type_all-dialog [] s tab = refl
  type_all-dialog (ch ∷ chs) s tab = type_all-dialog chs (s ++ ch) tab

  opened-dialog :
      (tab : ToolsTab)
      → (handle_focused_event send what (character (codes "b")) tab).1 ≡ dialog [] tab
  unfolding handle_focused_event compare_bytes
  opened-dialog tab = refl

  entered :
      (s : Bytes) (tab : ToolsTab)
      → empty (trimmed s) ≡ false
      → (handle_tools_input send what return_key (dialog s tab)).1
        ≡ trigger_broadcast send what (trimmed s) (without_dialog tab)
  entered s tab e =
      unfold handle_tools_input in
      ap
        (λ b.
          if not b
          then trigger_broadcast send what (trimmed s) (without_dialog tab)
          else without_dialog tab)
        e

  pub broadcast-trigger :
      (chs : List Bytes) (tab : ToolsTab)
      → empty (trimmed (typed chs [])) ≡ false
      → broadcast chs tab
        ≡ trigger_broadcast send what (trimmed (typed chs [])) (without_dialog tab)
  broadcast-trigger chs tab e =
      unfold broadcast in
      (ap (λ t. (handle_tools_input send what return_key (type_all chs t)).1) (opened-dialog tab)
        ∙ ap (λ t. (handle_tools_input send what return_key t).1) (type_all-dialog chs [] tab)
        ∙ entered (typed chs []) tab e)

  -- The state that is shown while the thread is on its way.
  abbrev pub submitting_state : Bytes → BroadcastState
  submitting_state hex = record {
    hex = hex;
    submitting = true;
    result_txid = [];
    result_error = [];
    success = false;
    has_result = false;
  }

  abbrev pub started : Bytes → ToolsTab → ToolsTab
  started hex tab = record tab {
    broadcast_in_flight = true;
    broadcast_state = submitting_state hex;
  }

  pub join-idle : (tab : ToolsTab) → tab.broadcast_thread ≡ idle → join send what tab ≡ tab
  unfolding join run_thread thread_step
  join-idle tab e =
      let once : run_thread send what tab ≡ tab = ap (λ th. thread_step send what th tab) e in
      ap (run_thread send what) once ∙ once

  pub trigger_broadcast-started :
      (hex : Bytes) (tab : ToolsTab)
      → tab.broadcast_in_flight ≡ false
      → trigger_broadcast send what hex tab
        ≡ launch send what hex (join send what (started hex tab))
  trigger_broadcast-started hex tab e =
      unfold trigger_broadcast in
      ap (λ b. if b then tab else launch send what hex (join send what (started hex tab))) e

  pub run_thread-launch :
      (hex : Bytes) (tab : ToolsTab)
      → tab.running ≡ true
      → run_thread send what (run_thread send what (launch send what hex tab)) ≡ record tab {
        broadcast_state = result_of_send send what hex;
        broadcast_thread = idle;
        broadcast_in_flight = false;
        submitted = hex ∷ tab.submitted;
      }
  run_thread-launch hex tab e =
      unfold run_thread thread_step launch in
      ap
        (λ b.
          if b
          then (record tab {
            broadcast_state = result_of_send send what hex;
            broadcast_thread = idle;
            broadcast_in_flight = false;
            submitted = hex ∷ tab.submitted;
          })
          else record tab {
            broadcast_thread = idle;
            broadcast_in_flight = false;
            submitted = hex ∷ tab.submitted;
          })
        e

  -- When no broadcast is on its way, its thread is joined and the program goes on, a transaction that
  -- is not blank, typed after the key b, is sent to the node once Enter is pressed, without the
  -- blanks around it and once, and its result is what the tab shows when the thread has ended; the
  -- dialog is closed, the first row is selected, and nothing else has changed.
  pub broadcast-sent :
      (chs : List Bytes) (tab : ToolsTab)
      → empty (trimmed (typed chs [])) ≡ false
      → tab.broadcast_in_flight ≡ false
      → tab.broadcast_thread ≡ idle
      → tab.running ≡ true
      → run_thread send what (run_thread send what (broadcast chs tab))
        ≡ record (without_dialog tab) {
          broadcast_state = result_of_send send what (trimmed (typed chs []));
          broadcast_thread = idle;
          broadcast_in_flight = false;
          submitted = trimmed (typed chs []) ∷ tab.submitted;
        }
  broadcast-sent chs tab e f i r =
      let hex = trimmed (typed chs []) in
      let run = λ (t : ToolsTab). run_thread send what (run_thread send what t) in
      ap run (broadcast-trigger chs tab e ∙ trigger_broadcast-started hex (without_dialog tab) f)
      ∙ ap (λ t. run (launch send what hex t)) (join-idle (started hex (without_dialog tab)) i)
      ∙ run_thread-launch hex (started hex (without_dialog tab)) r

  -- While a broadcast is on its way, a transaction that is not blank, typed after the key b, is lost
  -- when Enter is pressed: the dialog is closed and the first row is selected, and nothing else has
  -- changed, so that it is neither sent nor kept.
  pub broadcast-lost :
      (chs : List Bytes) (tab : ToolsTab)
      → empty (trimmed (typed chs [])) ≡ false
      → tab.broadcast_in_flight ≡ true
      → broadcast chs tab ≡ without_dialog tab
  broadcast-lost chs tab e f =
      broadcast-trigger chs tab e
      ∙ unfold trigger_broadcast in
        ap
          (λ b.
            if b
            then without_dialog tab
            else launch send what (trimmed (typed chs []))
                (join send what (started (trimmed (typed chs [])) (without_dialog tab))))
          f
