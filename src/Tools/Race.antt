-- ===== src/Tools/Race.antt =====
-- src/tabs/tools.cpp: a broadcast between the end of another and its result.
use bitcoin_tui.Base.{
  ℕ, true, false, List, [], ◌∷◌, Bytes, pos, if◌then◌else◌, Exception, ◌⊎◌, inl, ◌≡◌, refl, ◌∙◌, ap,
}
use bitcoin_tui.State.{empty}
use bitcoin_tui.Format.{trimmed}
use bitcoin_tui.Json.Value.{Json}
use bitcoin_tui.Tools.{
  return_key, arrow_down, BroadcastState, idle, sending, sent, ToolsTab, result_of_send,
  thread_step, run_thread, join, launch, handle_focused_event,
}
use bitcoin_tui.Tools.Broadcast.{
  typed, without_dialog, broadcast, broadcast-trigger, started, trigger_broadcast-started,
  run_thread-launch,
}

-- The result of a transaction that the node took.
abbrev pub succeeded : Bytes → Bytes → BroadcastState
succeeded hex txid = record {
  hex = hex;
  submitting = false;
  result_txid = txid;
  result_error = [];
  success = true;
  has_result = true;
}

module _ {D : Type 0} (send : Bytes → Exception ⊎ Json D) (what : Exception → Bytes) where
  join-sent :
      (r : BroadcastState) (tab : ToolsTab)
      → tab.broadcast_thread ≡ sent r
      → tab.running ≡ true
      → join send what tab ≡ record tab { broadcast_state = r; broadcast_thread = idle }
  join-sent r tab e go =
      unfold join run_thread thread_step in
      (ap (λ th. run_thread send what (thread_step send what th tab)) e
        ∙ ap
            (λ b. run_thread send what (
              if b
              then (record tab { broadcast_state = r; broadcast_thread = idle })
              else record tab { broadcast_thread = idle }))
            go)

  -- The tab with one result, while the next transaction is on its way.
  abbrev late : Bytes → BroadcastState → ToolsTab → ToolsTab
  late hex r tab = record (without_dialog send what tab) {
    broadcast_in_flight = true;
    broadcast_state = r;
    broadcast_thread = sending hex;
  }

  broadcast-late :
      (chs : List Bytes) (r : BroadcastState) (tab : ToolsTab)
      → empty (trimmed (typed chs [])) ≡ false
      → tab.broadcast_in_flight ≡ false
      → tab.broadcast_thread ≡ sent r
      → tab.running ≡ true
      → broadcast send what chs tab ≡ late (trimmed (typed chs [])) r tab
  broadcast-late chs r tab e f s go =
      let hex = trimmed (typed chs []) in
      let closed = without_dialog send what tab in
      broadcast-trigger send what chs tab e
      ∙ trigger_broadcast-started send what hex closed f
      ∙ ap (launch send what hex) (join-sent r (started send what hex closed) s go)
      ∙ unfold launch in refl

  abbrev refused_state : Bytes → Exception → BroadcastState
  refused_state hex x = record {
    hex = hex;
    submitting = false;
    result_txid = [];
    result_error = what x;
    success = false;
    has_result = true;
  }

  result_of_send-fails :
      (hex : Bytes) (x : Exception)
      → send hex ≡ inl x
      → result_of_send send what hex ≡ refused_state hex x
  result_of_send-fails hex x e = unfold result_of_send in rw e refl

  abbrev pub down_and_enter : (ToolsTab → ToolsTab) → ToolsTab → ToolsTab
  down_and_enter between tab =
      (handle_focused_event send what return_key
        (between (handle_focused_event send what arrow_down tab).1)).1

  enter_late :
      (hex : Bytes) (x : Exception) (r : BroadcastState) (tab : ToolsTab)
      → (r.has_result ≡ true) × (r.success ≡ true)
      → tab.running ≡ true
      → send hex ≡ inl x
      → (down_and_enter
          (λ t. run_thread send what (run_thread send what t))
          (late hex r tab)).shut_down
        ≡ true
  enter_late hex x r tab (has, good) go refused =
      let second : ToolsTab = record (late hex r tab) { tools_sel = pos 1 } in
      let moved : (handle_focused_event send what arrow_down (late hex r tab)).1
          ≡ launch send what hex second =
        unfold handle_focused_event launch in rw (has, good) refl in
      ap
        (λ t.
          (handle_focused_event send what return_key
            (run_thread send what (run_thread send what t))).1.shut_down)
        moved
      ∙ ap (λ t. (handle_focused_event send what return_key t).1.shut_down)
          (run_thread-launch send what hex second go)
      ∙ ap
          (λ v.
            (handle_focused_event send what return_key (record second {
              broadcast_state = v;
              broadcast_thread = idle;
              broadcast_in_flight = false;
              submitted = hex ∷ tab.submitted;
            })).1.shut_down)
          (result_of_send-fails hex x refused)
      ∙ unfold handle_focused_event in refl

  -- Let a broadcast have succeeded, with a transaction id that is not empty, and let its thread have
  -- cleared the flag and not yet stored this result. Let a text that is not blank be broadcast then,
  -- which the node refuses, while the program goes on. The result of the earlier one is shown while
  -- the new transaction is on its way, and after the arrow down Enter looks the earlier transaction
  -- up; but if the refusal is stored just before Enter is pressed, the same keys shut the node down.
  pub broadcast-shut_down :
      (chs : List Bytes) (old txid : Bytes) (c : ℕ) (x : Exception) (tab : ToolsTab)
      → empty (trimmed (typed chs [])) ≡ false
      → tab.broadcast_in_flight ≡ false
      → tab.broadcast_thread ≡ sent (succeeded old (c ∷ txid))
      → tab.running ≡ true
      → send (trimmed (typed chs [])) ≡ inl x
      → ((broadcast send what chs tab).broadcast_state ≡ succeeded old (c ∷ txid))
        × ((down_and_enter (λ t. t) (broadcast send what chs tab)).searches
            ≡ (c ∷ txid) ∷ tab.searches)
        × ((down_and_enter
              (λ t. run_thread send what (run_thread send what t))
              (broadcast send what chs tab)).shut_down
            ≡ true)
  broadcast-shut_down chs old txid c x tab e f s go refused =
      let hex = trimmed (typed chs []) in
      let r = succeeded old (c ∷ txid) in
      let now = broadcast-late chs r tab e f s go in
      (
        ap (λ t. t.broadcast_state) now,
        ap (λ t. (down_and_enter (λ u. u) t).searches) now ∙ unfold handle_focused_event in refl,
        ap (λ t. (down_and_enter (λ u. run_thread send what (run_thread send what u)) t).shut_down)
              now
            ∙ enter_late hex x r tab (refl, refl) go refused,
      )
