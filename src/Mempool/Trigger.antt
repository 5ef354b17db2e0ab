-- ===== src/Mempool/Trigger.antt =====
-- src/tabs/mempool.cpp: the search thread and a new search keep the tab well formed.
use bitcoin_tui.Base.{
  Bool, true, false, not, List, ◌∷◌, Bytes, ℤ, if◌then◌else◌, ◌≡◌, refl, sym, arith,
}
use bitcoin_tui.State.{TxSearchState, empty}
use bitcoin_tui.Json.Access.Laws.{true≢false}
use bitcoin_tui.Mempool.{search_if_any}
use bitcoin_tui.Mempool.Thread.{
  Thread, idle, searching_for, found_result, MempoolTab, show_query, launch, store_result,
  thread_step, run_thread, join, query_shown, pushed, trigger_search,
}
use bitcoin_tui.Mempool.Selection.{
  Selected, AllSelected, ThreadSelected, Kept, ThreadFits, WellFormed, Keeps, keeps, if-Keeps,
  io_max_sel-ge, nothing-InSel,
}

-- What the handlers keep, whatever the search returns, as long as its selections are its own.
module _ {D : Type 0} (zero_double : D) (search : Bytes → Bool → ℤ → TxSearchState D)
    (search-Selected : (query : Bytes) (is_height : Bool) (tip : ℤ)
      → Selected (search query is_height tip)) where
  thread_step-Kept :
      (t : Thread D) (tab : MempoolTab D)
      → ThreadSelected t
      → Kept tab
      → Kept (thread_step zero_double search t tab)
  unfolding thread_step store_result
  thread_step-Kept idle tab h k = k
  thread_step-Kept (searching_for query is_height tip) tab h k = record {
    shown = k.shown;
    kept = k.kept;
    found = search-Selected query is_height tip;
    block = k.block;
  }
  thread_step-Kept (found_result ss) tab h k = stored tab.running
    where
      stored :
          (b : Bool)
          → Kept (
              if b
              then record tab { state = ss; search_thread = idle }
              else record tab { search_thread = idle })
      stored true = record { shown = h; kept = k.kept; found = tt; block = k.block }
      stored false = record { shown = k.shown; kept = k.kept; found = tt; block = k.block }

  run_thread-Kept : (tab : MempoolTab D) → Kept tab → Kept (run_thread zero_double search tab)
  unfolding run_thread
  run_thread-Kept tab k = thread_step-Kept tab.search_thread tab k.found k

  thread_step-fits :
      (t : Thread D) (tab : MempoolTab D)
      → t ≡ tab.search_thread
      → ThreadFits t tab.search_in_flight
      → ThreadFits
          (thread_step zero_double search t tab).search_thread
          (thread_step zero_double search t tab).search_in_flight
  unfolding thread_step store_result
  thread_step-fits idle tab e h = rw (sym e) h
  thread_step-fits (searching_for query is_height tip) tab e h = refl
  thread_step-fits (found_result ss) tab e h = stored tab.running
    where
      stored :
          (b : Bool)
          → ThreadFits
              (if b
                then record tab { state = ss; search_thread = idle }
                else record tab { search_thread = idle }).search_thread
              (if b
                then record tab { state = ss; search_thread = idle }
                else record tab { search_thread = idle }).search_in_flight
      stored true = h
      stored false = h

  -- Each step of the search thread keeps the tab well formed.
  pub run_thread-WellFormed :
      (tab : MempoolTab D) → WellFormed tab → WellFormed (run_thread zero_double search tab)
  run_thread-WellFormed tab w = record {
    selected = run_thread-Kept tab w.selected;
    fits = unfold run_thread in thread_step-fits tab.search_thread tab refl w.fits;
  }

  pushed-AllSelected :
      (b : Bool) (ss : TxSearchState D) (history : List (TxSearchState D))
      → Selected ss
      → AllSelected history
      → AllSelected (pushed zero_double search b ss history)
  unfolding pushed
  pushed-AllSelected true ss history h hs = tt
  pushed-AllSelected false ss history h hs = pushed_on (not (empty ss.txid))
    where
      pushed_on : (b : Bool) → AllSelected (if b then ss ∷ history else history)
      pushed_on true = (h, hs)
      pushed_on false = hs

  query_shown-Selected : (query : Bytes) → Selected (query_shown zero_double search query)
  unfolding query_shown
  query_shown-Selected query = record {
    io = record {
      above = omega arith;
      below = io_max_sel-ge (query_shown zero_double search query);
    };
    input = nothing-InSel 0;
    output = nothing-InSel 0;
  }

  show_query-Kept :
      (query : Bytes) (switch_tab : Bool) (tab : MempoolTab D)
      → Kept tab
      → Kept (show_query zero_double search query switch_tab tab)
  unfolding show_query
  show_query-Kept query switch_tab tab k = record {
    shown = query_shown-Selected query;
    kept = pushed-AllSelected switch_tab tab.state tab.history k.shown k.kept;
    found = k.found;
    block = k.block;
  }

  launch-WellFormed :
      (query : Bytes) (tab : MempoolTab D)
      → Kept tab
      → tab.search_in_flight ≡ true
      → WellFormed (launch zero_double search query tab)
  unfolding launch
  launch-WellFormed query tab k flag = record {
    selected = record { shown = k.shown; kept = k.kept; found = tt; block = k.block };
    fits = flag;
  }

  -- A thread that does not search any more leaves the flag alone while it is joined.
  join-flag :
      (t : Thread D) (tab : MempoolTab D)
      → t ≡ tab.search_thread
      → ThreadFits t false
      → (join zero_double search tab).search_in_flight ≡ tab.search_in_flight
  unfolding join run_thread thread_step store_result
  join-flag idle tab e h = rw (sym e) refl
  join-flag (searching_for query is_height tip) tab e h = absurd (true≢false (sym h))
  join-flag (found_result ss) tab e h = stored tab.running refl
    where
      stored :
          (b : Bool)
          → tab.running ≡ b
          → (join zero_double search tab).search_in_flight ≡ tab.search_in_flight
      stored true r = rw (sym e, r) refl
      stored false r = rw (sym e, r) refl

  show_query-flag :
      (query : Bytes) (switch_tab : Bool) (tab : MempoolTab D)
      → ThreadFits tab.search_thread false
      → (join zero_double search
          (show_query zero_double search query switch_tab tab)).search_in_flight
        ≡ true
  unfolding show_query
  show_query-flag query switch_tab tab h =
      join-flag tab.search_thread (show_query zero_double search query switch_tab tab) refl h

  pub trigger_search-WellFormed :
      (query : Bytes) (switch_tab : Bool) (tab : MempoolTab D)
      → WellFormed tab
      → WellFormed (trigger_search zero_double search query switch_tab tab)
  unfolding trigger_search join
  trigger_search-WellFormed query switch_tab tab w = unless tab.search_in_flight w.fits
    where
      kept : Kept (join zero_double search (show_query zero_double search query switch_tab tab))
      kept = run_thread-Kept _ (run_thread-Kept _ (show_query-Kept query switch_tab tab w.selected))

      unless :
          (b : Bool)
          → ThreadFits tab.search_thread b
          → WellFormed (
              if b
              then tab
              else launch zero_double search query
                  (join zero_double search (show_query zero_double search query switch_tab tab)))
      unless true h = w
      unless false h = launch-WellFormed query _ kept (show_query-flag query switch_tab tab h)

  pub search_if_any-Keeps :
      (query : Bytes) (tab : MempoolTab D)
      → WellFormed tab
      → Keeps (search_if_any zero_double search query tab)
  unfolding search_if_any
  search_if_any-Keeps query tab w =
      if-Keeps (not (empty query)) (keeps (trigger_search-WellFormed query false tab w)) (keeps w)
