-- ===== src/Application/Search.antt =====
-- src/main.cpp: a search from the search bar, with the Mempool tab that it is for.
use bitcoin_tui.Base.{
  true, false, not, ◌&&◌, ◌||◌, List, [], ◌∷◌, ◌++◌, Bytes, Bool, is_digit, ℤ, pos, ◌≡◌, refl,
}
use bitcoin_tui.State.{TxSearchState, empty, all_of, is_txid, is_height}
use bitcoin_tui.Format.{trimmed}
use bitcoin_tui.Mempool.Thread.{
  idle, MempoolTab, store_result, thread_step, run_thread, join, pushed, show_query, launch,
  trigger_search,
}
use bitcoin_tui.Application.Overlay.{Event, return_key, Pauses, Application}
use bitcoin_tui.Application.{Handlers}
use bitcoin_tui.Application.SearchBar.{
  AllTyping, typed_by, handle_events, LeavesSlash, slash, handle_events-search,
}

-- The Mempool tab and the others.
pub record AllTabs (D R : Type 0) : Type 0 where
  pub mempool : MempoolTab D
  pub others : R

module _ {D R : Type 0} (zero_double : D) (search : Bytes → Bool → ℤ → TxSearchState D) where
  abbrev searching_mempool : Bytes → Bool → ℤ × AllTabs D R → ℤ × AllTabs D R
  searching_mempool query switch_tab (tab_index, tabs) =
      let tab =
        trigger_search zero_double search query switch_tab
          (record tabs.mempool { tab_index = tab_index }) in
      (tab.tab_index, record tabs { mempool = tab })

  -- Any handlers of the tabs, with the search of the Mempool tab.
  abbrev pub with_search : Handlers (AllTabs D R) → Handlers (AllTabs D R)
  with_search h = record h { trigger_search = searching_mempool }

  searching_mempool-shows :
      (query : Bytes) (tab_index : ℤ) (tabs : AllTabs D R)
      → tabs.mempool.search_in_flight ≡ false
      → tabs.mempool.search_thread ≡ idle
      → tabs.mempool.running ≡ true
      → (let (shown, now) = searching_mempool query true (tab_index, tabs) in
          let found = run_thread zero_double search (run_thread zero_double search now.mempool) in
          (shown ≡ pos 1)
          × (now.others ≡ tabs.others)
          × (found.history ≡ [])
          × (found.state
              ≡ search query (not (empty query) && all_of is_digit query) tabs.mempool.blocks))
  unfolding run_thread thread_step store_result trigger_search show_query join launch pushed
  searching_mempool-shows query tab_index tabs free joined runs =
      rw (free, joined, runs) (refl, refl, refl, refl)

  -- A search from the bar: after /, whatever is typed, with Backspace for the last byte, and Enter, if
  -- the text is a transaction id or a height, without the blanks around it, the bar is closed and the
  -- Mempool tab is shown, which shows the result of the search for it once that has ended; its history
  -- is empty, and the other tabs are as they were. This is while the node is connected, the program
  -- goes on, no tab takes the key /, the bar is closed, no search is in flight and its thread is
  -- joined; Escape and the left button are left out.
  pub handle_events-shows :
      (p : Pauses) (h : Handlers (AllTabs D R)) (events : List Event)
      (s : Application (AllTabs D R))
      → s.connected ≡ true
      → s.global_search_active ≡ false
      → LeavesSlash (with_search h) (s.tab_index, s.tabs)
      → AllTyping events
      → (is_txid (trimmed (typed_by events [])) || is_height (trimmed (typed_by events []))) ≡ true
      → s.tabs.mempool.search_in_flight ≡ false
      → s.tabs.mempool.search_thread ≡ idle
      → s.tabs.mempool.running ≡ true
      → (let query = trimmed (typed_by events []) in
          let t = handle_events (with_search h) p (slash ∷ (events ++ return_key ∷ [])) s in
          let found =
            run_thread zero_double search (run_thread zero_double search t.tabs.mempool) in
          (t.global_search_active ≡ false)
          × (t.tab_index ≡ pos 1)
          × (t.tabs.others ≡ s.tabs.others)
          × (found.history ≡ [])
          × (found.state
              ≡ search query (not (empty query) && all_of is_digit query) s.tabs.mempool.blocks))
  handle_events-shows p h events s c inactive leaves typing valid free joined runs =
      let query = trimmed (typed_by events []) in
      let (shown, others, history, state) =
        searching_mempool-shows query s.tab_index s.tabs free joined runs in
      rw (handle_events-search (with_search h) p events s c inactive leaves typing, valid)
        (refl, shown, others, history, state)
