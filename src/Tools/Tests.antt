-- ===== src/Tools/Tests.antt =====
-- src/tabs/tools.cpp: a transaction that is typed in as `ab `.
use bitcoin_tui.Base.{
  ℕ, true, false, List, [], ◌∷◌, Bytes, codes, pos, Exception, rpc_error, ◌⊎◌, inl, inr, ◌≡◌, refl,
}
use bitcoin_tui.Json.Value.{Json, string, object, field, no_fields}
use bitcoin_tui.Format.{trimmed}
use bitcoin_tui.State.{empty}
use bitcoin_tui.Tools.{BroadcastThread, idle, sending, sent, ToolsTab, result_of_send, run_thread}
use bitcoin_tui.Tools.Broadcast.{
  typed, without_dialog, broadcast, submitting_state, broadcast-sent, broadcast-lost,
}
use bitcoin_tui.Tools.Race.{succeeded, down_and_enter, broadcast-shut_down}

abbrev reply : Bytes → Exception ⊎ Json ℕ
reply hex = inr (object (field (codes "result") (string (codes "id")) no_fields))

abbrev refusal : Bytes → Exception ⊎ Json ℕ
refusal hex = inl (rpc_error (codes "bad-txns"))

abbrev what_of : Exception → Bytes
what_of (rpc_error s) = s
what_of _ = []

abbrev ab : List Bytes
ab = codes "a" ∷ codes "b" ∷ codes " " ∷ []

abbrev tab_with : BroadcastThread → ToolsTab
tab_with thread = record {
  tools_input_active = false;
  tools_sel = pos 0;
  tools_hex_str = [];
  broadcast_in_flight = false;
  broadcast_state = submitting_state reply what_of [];
  broadcast_thread = thread;
  running = true;
  submitted = [];
  searches = [];
  shut_down = false;
}

ab-typed : empty (trimmed (typed ab [])) ≡ false
unfolding trimmed
ab-typed = refl

broadcast-sent_example :
    run_thread reply what_of (run_thread reply what_of (broadcast reply what_of ab (tab_with idle)))
    ≡ record (without_dialog reply what_of (tab_with idle)) {
      broadcast_state = result_of_send reply what_of (trimmed (typed ab []));
      broadcast_thread = idle;
      broadcast_in_flight = false;
      submitted = trimmed (typed ab []) ∷ [];
    }
broadcast-sent_example = broadcast-sent reply what_of ab (tab_with idle) ab-typed refl refl refl

-- A tab with a broadcast on its way.
abbrev busy : ToolsTab
busy = record (tab_with (sending (codes "cd"))) { broadcast_in_flight = true }

broadcast-lost_example : broadcast reply what_of ab busy ≡ without_dialog reply what_of busy
broadcast-lost_example = broadcast-lost reply what_of ab busy ab-typed refl

broadcast-shut_down_example :
    ((broadcast refusal what_of ab (tab_with (sent (succeeded [] (codes "id"))))).broadcast_state
      ≡ succeeded [] (codes "id"))
    × ((down_and_enter refusal what_of
          (λ t. t)
          (broadcast refusal what_of ab (tab_with (sent (succeeded [] (codes "id")))))).searches
        ≡ codes "id" ∷ [])
    × ((down_and_enter refusal what_of
          (λ t. run_thread refusal what_of (run_thread refusal what_of t))
          (broadcast refusal what_of ab (tab_with (sent (succeeded [] (codes "id")))))).shut_down
        ≡ true)
broadcast-shut_down_example =
    broadcast-shut_down refusal what_of ab [] (codes "d") b'i' (rpc_error (codes "bad-txns"))
      (tab_with (sent (succeeded [] (codes "id")))) ab-typed refl refl refl refl
