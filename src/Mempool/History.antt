-- ===== src/Mempool/History.antt =====
-- src/tabs/mempool.cpp: the history that Escape goes back through, and the search thread.
use bitcoin_tui.Base.{
  Bool, true, false, not, List, [], ◌∷◌, Bytes, ℤ, ◌&&◌, is_digit, if◌then◌else◌, ◌≡◌, refl, ◌∙◌,
}
use bitcoin_tui.State.{TxSearchState, no_search, empty, all_of}
use bitcoin_tui.Mempool.{escape, back, handle_escape}
use bitcoin_tui.Mempool.Thread.{
  idle, searching_for, MempoolTab, store_result, thread_step, run_thread, join, pushed, show_query,
  launch, trigger_search,
}

module _ {D : Type 0} (zero_double : D) (search : Bytes → Bool → ℤ → TxSearchState D) where
  -- A search from the overlay of another, once its thread has ended, shows its result; Escape then
  -- goes back to what was shown before, with the same history, and no search is in flight. This
  -- holds while no search is in flight, the thread is joined, another search is shown and the
  -- program goes on.
  pub trigger_search-handle_escape :
      (query : Bytes) (tab : MempoolTab D)
      → tab.search_in_flight ≡ false
      → tab.search_thread ≡ idle
      → tab.running ≡ true
      → empty tab.state.txid ≡ false
      → (let found =
            run_thread zero_double search
              (run_thread zero_double search (trigger_search zero_double search query false tab)) in
          let left = (handle_escape zero_double search escape found).1 in
          (found.state ≡ search query (not (empty query) && all_of is_digit query) tab.blocks)
          × (left.state ≡ tab.state)
          × (left.history ≡ tab.history)
          × (left.search_in_flight ≡ false)
          × (left.search_thread ≡ idle))
  unfolding run_thread thread_step store_result trigger_search show_query join launch pushed
      handle_escape back
  trigger_search-handle_escape query tab free joined runs shown =
      rw (free, joined, runs, shown) (refl, refl, refl, refl, refl)

  back-thread :
      (history : List (TxSearchState D)) (tab : MempoolTab D)
      → ((back zero_double search history tab).1.search_thread ≡ tab.search_thread)
        × ((back zero_double search history tab).1.running ≡ tab.running)
  unfolding back
  back-thread (ss ∷ history) tab = (refl, refl)
  back-thread [] tab = dismissed (not (empty tab.state.txid))
    where
      dismissed :
          (b : Bool)
          → ((if◌then◌else◌ {A = Bool × MempoolTab D} b
                (true, record tab { state = no_search zero_double })
                (false, tab)).1.search_thread
              ≡ tab.search_thread)
            × ((if◌then◌else◌ {A = Bool × MempoolTab D} b
                  (true, record tab { state = no_search zero_double })
                  (false, tab)).1.running
                ≡ tab.running)
      dismissed true = (refl, refl)
      dismissed false = (refl, refl)

  shows-result :
      (query : Bytes) (is_height : Bool) (tip : ℤ) (tab : MempoolTab D)
      → tab.search_thread ≡ searching_for query is_height tip
      → tab.running ≡ true
      → (run_thread zero_double search (run_thread zero_double search tab)).state
        ≡ search query is_height tip
  unfolding run_thread thread_step store_result
  shows-result query is_height tip tab t runs = rw (t, runs) refl

  -- Escape does not stop a search in flight: whatever the tab goes back to, once the thread has
  -- ended the result of the search is shown in its place, as long as the program goes on.
  pub handle_escape-run_thread :
      (query : Bytes) (is_height : Bool) (tip : ℤ) (tab : MempoolTab D)
      → tab.search_thread ≡ searching_for query is_height tip
      → tab.running ≡ true
      → (run_thread zero_double search
          (run_thread zero_double search (handle_escape zero_double search escape tab).1)).state
        ≡ search query is_height tip
  unfolding handle_escape
  handle_escape-run_thread query is_height tip tab t runs =
      let (same_thread, same_running) = back-thread tab.history tab in
      shows-result query is_height tip (back zero_double search tab.history tab).1 (same_thread ∙ t)
        (same_running ∙ runs)
