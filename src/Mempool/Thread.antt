-- ===== src/Mempool/Thread.antt =====
-- src/tabs/mempool.cpp: the members of MempoolTab, the search thread and `trigger_search`.
use bitcoin_tui.Base.{
  Bool, true, false, ◌&&◌, not, List, [], ◌∷◌, Bytes, is_digit, ℤ, pos, if◌then◌else◌,
}
use bitcoin_tui.State.{TxSearchState, no_search, empty, all_of}

-- The search thread: none, or joined; on its way; or behind `search_in_flight_ = false`, with the
-- result that it has not stored yet.
pub data Thread (D : Type 0) : Type 0 where
  idle : Thread D
  searching_for : Bytes → Bool → ℤ → Thread D
  found_result : TxSearchState D → Thread D

-- The members, and what the handlers use of the shared state: the heights of `recent_blocks`,
-- `blocks`, `running`, the tab that is shown, and whether the loop was told to exit.
pub record MempoolTab (D : Type 0) : Type 0 where
  pub mempool_sel : ℤ
  pub state : TxSearchState D
  -- the back of the vector comes first
  pub history : List (TxSearchState D)
  pub search_in_flight : Bool
  pub search_thread : Thread D
  pub recent_blocks : List ℤ
  pub blocks : ℤ
  pub running : Bool
  pub tab_index : ℤ
  pub exiting : Bool

-- What the thread does, with the search as a parameter, and the double 0.0.
module _ {D : Type 0} (zero_double : D) (search : Bytes → Bool → ℤ → TxSearchState D) where
  -- The end of the thread: the result is stored unless the program is shutting down.
  unfoldable pub store_result : TxSearchState D → MempoolTab D → MempoolTab D
  store_result result tab =
      if tab.running
      then record tab { state = result; search_thread = idle }
      else record tab { search_thread = idle }

  -- The thread's steps: the search ends and the flag is cleared; then the result is stored.
  unfoldable pub thread_step : Thread D → MempoolTab D → MempoolTab D
  unfolding store_result
  thread_step idle tab = tab
  thread_step (searching_for query is_height tip) tab = record tab {
    search_thread = found_result (search query is_height tip);
    search_in_flight = false;
  }
  thread_step (found_result result) tab = store_result result tab

  unfoldable pub run_thread : MempoolTab D → MempoolTab D
  unfolding thread_step
  run_thread tab = thread_step tab.search_thread tab

  -- search_thread_.join(): what is left of the thread.
  unfoldable pub join : MempoolTab D → MempoolTab D
  unfolding run_thread
  join tab = run_thread (run_thread tab)

  -- What `trigger_search` shows while the search runs.
  unfoldable pub query_shown : Bytes → TxSearchState D
  query_shown query = record (no_search zero_double) { txid = query; searching = true }

  unfoldable pub pushed : Bool → TxSearchState D → List (TxSearchState D) → List (TxSearchState D)
  pushed switch_tab ss history =
      if switch_tab then [] else if not (empty ss.txid) then ss ∷ history else history

  -- Up to the join: the flag is set and the query is shown.
  unfoldable pub show_query : Bytes → Bool → MempoolTab D → MempoolTab D
  unfolding pushed query_shown
  show_query query switch_tab tab = record tab {
    search_in_flight = true;
    tab_index = if switch_tab then pos 1 else tab.tab_index;
    history = pushed switch_tab tab.state tab.history;
    state = query_shown query;
  }

  -- From the join on: the thread is started.
  unfoldable pub launch : Bytes → MempoolTab D → MempoolTab D
  launch query tab =
      let query_is_height = not (empty query) && all_of is_digit query in
      record tab { search_thread = searching_for query query_is_height tab.blocks }

  unfoldable pub trigger_search : Bytes → Bool → MempoolTab D → MempoolTab D
  unfolding show_query join launch
  trigger_search query switch_tab tab =
      if tab.search_in_flight then tab else launch query (join (show_query query switch_tab tab))
