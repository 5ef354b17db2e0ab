-- ===== src/Mempool/Tests.antt =====
-- Runs of the Mempool tab of src/tabs/mempool.cpp, with a search that finds nothing.
use bitcoin_tui.Base.{
  ℕ, Bool, true, false, not, ◌&&◌, is_digit, List, [], ◌∷◌, Bytes, codes, ℤ, pos, ◌≡◌, refl,
}
use bitcoin_tui.State.{TxSearchState, no_search, empty, all_of, is_height}
use bitcoin_tui.Mempool.{escape, handle_escape}
use bitcoin_tui.Mempool.Thread.{
  idle, searching_for, MempoolTab, query_shown, trigger_search, show_query, launch, join,
  thread_step, pushed, run_thread,
}
use bitcoin_tui.Mempool.Selection.{Selected, WellFormed, no_search-Selected}
use bitcoin_tui.Mempool.Steps.{new_tab, here, after, triggered, tab-WellFormed}
use bitcoin_tui.Mempool.History.{trigger_search-handle_escape, handle_escape-run_thread}

-- Doubles are numbers here.
finds_nothing : Bytes → Bool → ℤ → TxSearchState ℕ
finds_nothing query is_height tip = no_search 0

finds_nothing-Selected :
    (query : Bytes) (is_height : Bool) (tip : ℤ) → Selected (finds_nothing query is_height tip)
unfolding finds_nothing
finds_nothing-Selected query is_height tip = no_search-Selected 0

abbrev one_block : List ℤ
one_block = pos 840000 ∷ []

abbrev in_flight : MempoolTab ℕ
in_flight = record (new_tab 0 finds_nothing) {
  state = query_shown 0 finds_nothing (codes "7");
  search_in_flight = true;
  search_thread = searching_for (codes "7") true (pos 0);
}

abbrev shown : MempoolTab ℕ
shown = record (new_tab 0 finds_nothing) {
  state = record (no_search 0) { txid = codes "ab"; found = true };
}

tab-WellFormed_example : WellFormed in_flight
unfolding trigger_search show_query launch join run_thread thread_step pushed
tab-WellFormed_example =
    tab-WellFormed 0 finds_nothing finds_nothing-Selected (after (triggered (codes "7") false) here)

trigger_search-handle_escape_example :
    (let found =
        run_thread 0 finds_nothing
          (run_thread 0 finds_nothing (trigger_search 0 finds_nothing (codes "cd") false shown)) in
      let left = (handle_escape 0 finds_nothing escape found).1 in
      (found.state
        ≡ finds_nothing
            (codes "cd")
            (not (empty (codes "cd")) && all_of is_digit (codes "cd"))
            (pos 0))
      × (left.state ≡ shown.state)
      × (left.history ≡ shown.history)
      × (left.search_in_flight ≡ false)
      × (left.search_thread ≡ idle))
trigger_search-handle_escape_example =
    trigger_search-handle_escape 0 finds_nothing (codes "cd") shown refl refl refl refl

handle_escape-run_thread_example :
    (run_thread 0 finds_nothing
      (run_thread 0 finds_nothing (handle_escape 0 finds_nothing escape in_flight).1)).state
    ≡ finds_nothing (codes "7") true (pos 0)
handle_escape-run_thread_example =
    handle_escape-run_thread 0 finds_nothing (codes "7") true (pos 0) in_flight refl refl
