-- ===== src/Application/Tests.antt =====
-- Runs of the event handler, with the Mempool tab and without others.
use bitcoin_tui.Base.{
  ℕ, ◌+◌, ◌≤◌, Bool, true, false, not, ◌&&◌, ◌||◌, List, [], ◌∷◌, ◌++◌, Bytes, codes, is_digit,
  none, some, ℤ, pos, ◌≡◌, refl,
}
use bitcoin_tui.State.{TxSearchState, no_search, empty, all_of, is_txid, is_height}
use bitcoin_tui.Format.{trimmed, trim_front}
use bitcoin_tui.Mempool.Thread.{run_thread}
use bitcoin_tui.Mempool.Steps.{new_tab}
use bitcoin_tui.Application.Overlay.{
  Event, character, return_key, backspace, idle, Pauses, Application, step_of, thread_step,
  thread_steps, launch, launch_unless_done, overlay_return, overlay_key,
}
use bitcoin_tui.Application.{Handlers, handle_event, popped, clicked_tab}
use bitcoin_tui.Application.SearchBar.{LeavesSlash, slash, typed_by, handle_events}
use bitcoin_tui.Application.Search.{AllTabs, with_search, handle_events-shows}
use bitcoin_tui.Application.Steps.{Reaches, here, after, handled, thread_ran, gaps, Step_gap}
use bitcoin_tui.Application.Launch.{Reaches-launches}

abbrev finds_nothing : Bytes → Bool → ℤ → TxSearchState ℕ
finds_nothing query is_height tip = no_search 0

-- Tabs that take no event.
abbrev no_handlers : Handlers (AllTabs ℕ ℕ)
no_handlers = record {
  handle_tools_input = λ event s. (false, s.0, s.1);
  handle_tx_overlay = λ event s. (none, s.0, s.1);
  handle_addnode_input = λ event s. (false, s.0, s.1);
  handle_ban_input = λ event s. (false, s.0, s.1);
  handle_focused_event = λ event s. (false, s.0, s.1);
  handle_io_nav = λ event s. (false, s.0, s.1);
  handle_enter = λ event s. (false, s.0, s.1);
  handle_escape = λ event s. (false, s.0, s.1);
  trigger_search = λ query switch_tab s. s;
}

abbrev connected_app : Application (AllTabs ℕ ℕ)
connected_app = record {
  connected = true;
  can_launch = true;
  launch_in_flight = false;
  launch_done = false;
  launch_thread = idle;
  launches = 0;
  conn_overlay_sel = pos 0;
  exited = false;
  tab_labels = codes "Dashboard" ∷ codes "Mempool" ∷ codes "Peers" ∷ [];
  tab_index = pos 2;
  global_search_active = false;
  global_search_str = [];
  tabs = record { mempool = new_tab 0 finds_nothing; others = 7 };
}

abbrev no_pauses : Pauses
no_pauses = record { before_done = 0; before_stores = 0; between_stores = 0; before_exit = 0 }

-- A height with a slip of the finger.
abbrev typed_keys : List Event
typed_keys =
    character (codes " ")
    ∷ character (codes "1")
    ∷ character (codes "x")
    ∷ backspace
    ∷ character (codes "2")
    ∷ []

leaves : LeavesSlash (with_search 0 finds_nothing no_handlers) (pos 2, connected_app.tabs)
leaves = record { tools = refl; overlay = refl; addnode = refl; ban = refl; focused = refl }

a_height :
    (is_txid (trimmed (typed_by typed_keys [])) || is_height (trimmed (typed_by typed_keys [])))
    ≡ true
unfolding popped trimmed trim_front is_txid is_height
a_height = refl

handle_events-shows_example :
    (let query = trimmed (typed_by typed_keys []) in
      let t =
        handle_events
          (with_search 0 finds_nothing no_handlers)
          no_pauses
          (slash ∷ (typed_keys ++ return_key ∷ []))
          connected_app in
      let found = run_thread 0 finds_nothing (run_thread 0 finds_nothing t.tabs.mempool) in
      (t.global_search_active ≡ false)
      × (t.tab_index ≡ pos 1)
      × (t.tabs.others ≡ 7)
      × (found.history ≡ [])
      × (found.state
          ≡ finds_nothing query
              (not (empty query) && all_of is_digit query)
              connected_app.tabs.mempool.blocks))
handle_events-shows_example =
    handle_events-shows 0 finds_nothing no_pauses no_handlers typed_keys connected_app refl refl
      leaves (tt, (tt, (tt, (tt, (tt, tt))))) a_height refl refl refl

abbrev offline_app : Application (AllTabs ℕ ℕ)
offline_app = record connected_app { connected = false }

-- Enter, and Enter again when the thread has cleared launch_in_flight: bitcoind is launched twice.
abbrev once_app : Application (AllTabs ℕ ℕ)
once_app = thread_step (handle_event no_handlers no_pauses return_key offline_app).1

abbrev twice_app : Application (AllTabs ℕ ℕ)
twice_app = (handle_event no_handlers no_pauses return_key once_app).1

abbrev two_launches : Reaches no_handlers offline_app twice_app
two_launches =
    after (handled no_pauses return_key)
      (after thread_ran (after (handled no_pauses return_key) here))

launched_twice : (twice_app.launches ≡ 2) × (gaps no_handlers two_launches ≡ 1)
unfolding handle_event overlay_key overlay_return launch_unless_done launch thread_steps thread_step
    step_of gaps Step_gap
launched_twice = (refl, refl)

Reaches-launches_example :
    (twice_app.launches ≤ 0 + 1 + gaps no_handlers two_launches)
    × (u : Application (AllTabs ℕ ℕ)) × Reaches no_handlers offline_app u
    × (u.launches ≡ 0 + 5)
Reaches-launches_example =
    Reaches-launches no_handlers 5 offline_app twice_app two_launches
      (record { disconnected = refl; no_thread = refl; not_in_flight = refl; not_done = refl }) refl
      refl

-- The tab bar: the labels stand between blanks, one column apart.
clicked_peers : clicked_tab (pos 23) (pos 1) 0 connected_app.tab_labels ≡ some (pos 2)
unfolding clicked_tab
clicked_peers = refl
