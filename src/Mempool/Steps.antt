-- ===== src/Mempool/Steps.antt =====
-- src/tabs/mempool.cpp: the tab under every interleaving of keys, searches, the search thread and
-- the poll thread.
use bitcoin_tui.Base.{Bool, true, false, List, [], Bytes, ℤ, pos, negsuc, refl, arith}
use bitcoin_tui.State.{TxSearchState, no_search}
use bitcoin_tui.Mempool.{
  Event, handle_tx_overlay, handle_focused_event, handle_io_nav, handle_enter, handle_escape,
}
use bitcoin_tui.Mempool.Thread.{idle, MempoolTab, run_thread, trigger_search}
use bitcoin_tui.Mempool.Selection.{Selected, WellFormed, Keeps, no_search-Selected}
use bitcoin_tui.Mempool.Trigger.{run_thread-WellFormed, trigger_search-WellFormed}
use bitcoin_tui.Mempool.Keys.{
  handle_tx_overlay-Keeps, handle_focused_event-Keeps, handle_io_nav-Keeps, handle_enter-Keeps,
  handle_escape-Keeps,
}

module _ {D : Type 0} (zero_double : D) (search : Bytes → Bool → ℤ → TxSearchState D) where
  -- A new tab: nothing is shown, nothing is searched.
  abbrev pub new_tab : MempoolTab D
  new_tab = record {
    mempool_sel = negsuc 0;
    state = no_search zero_double;
    history = [];
    search_in_flight = false;
    search_thread = idle;
    recent_blocks = [];
    blocks = pos 0;
    running = true;
    tab_index = pos 0;
    exiting = false;
  }

  -- One step: a handler gets an event, another part of the program starts a search, the search
  -- thread does one of its own steps, the poll thread changes the shared state, or the program
  -- begins to shut down.
  pub data Step (tab : MempoolTab D) : MempoolTab D → Type 0 where
    overlay_key : (event : Event) → Step tab (handle_tx_overlay zero_double search event tab).1
    focused_key : (event : Event) → Step tab (handle_focused_event zero_double search event tab).1
    io_key : (event : Event) → Step tab (handle_io_nav zero_double search event tab).1
    enter_key : (event : Event) → Step tab (handle_enter zero_double search event tab).1
    escape_key : (event : Event) → Step tab (handle_escape zero_double search event tab).1
    triggered :
        (query : Bytes) (switch_tab : Bool)
        → Step tab (trigger_search zero_double search query switch_tab tab)
    thread_ran : Step tab (run_thread zero_double search tab)
    polled :
        (recent_blocks : List ℤ) (blocks : ℤ)
        → Step tab (record tab { recent_blocks = recent_blocks; blocks = blocks })
    stopped : Step tab (record tab { running = false })

  pub data Reaches : MempoolTab D → MempoolTab D → Type 0 where
    here : {tab : MempoolTab D} → Reaches tab tab
    after : {t u v : MempoolTab D} → Step t u → Reaches u v → Reaches t v

  new_tab-WellFormed : WellFormed new_tab
  new_tab-WellFormed = record {
    selected = record {
      shown = no_search-Selected zero_double;
      kept = tt;
      found = tt;
      block = omega arith;
    };
    fits = refl;
  }

  module _
      (search-Selected : (query : Bytes) (is_height : Bool) (tip : ℤ)
        → Selected (search query is_height tip)) where
    Step-WellFormed : {t u : MempoolTab D} → Step t u → WellFormed t → WellFormed u
    Step-WellFormed {t} (overlay_key event) w =
        Keeps.well (handle_tx_overlay-Keeps zero_double search search-Selected event t w)
    Step-WellFormed {t} (focused_key event) w =
        Keeps.well (handle_focused_event-Keeps zero_double search search-Selected event t w)
    Step-WellFormed {t} (io_key event) w =
        Keeps.well (handle_io_nav-Keeps zero_double search search-Selected event t w)
    Step-WellFormed {t} (enter_key event) w =
        Keeps.well (handle_enter-Keeps zero_double search search-Selected event t w)
    Step-WellFormed {t} (escape_key event) w =
        Keeps.well (handle_escape-Keeps zero_double search search-Selected event t w)
    Step-WellFormed {t} (triggered query switch_tab) w =
        trigger_search-WellFormed zero_double search search-Selected query switch_tab t w
    Step-WellFormed {t} thread_ran w = run_thread-WellFormed zero_double search search-Selected t w
    Step-WellFormed {t} (polled recent_blocks blocks) w =
        let k = w.selected in
        record {
          selected = record { shown = k.shown; kept = k.kept; found = k.found; block = k.block };
          fits = w.fits;
        }
    Step-WellFormed {t} stopped w =
        let k = w.selected in
        record {
          selected = record { shown = k.shown; kept = k.kept; found = k.found; block = k.block };
          fits = w.fits;
        }

    Reaches-WellFormed : {t u : MempoolTab D} → Reaches t u → WellFormed t → WellFormed u
    Reaches-WellFormed here w = w
    Reaches-WellFormed (after s r) w = Reaches-WellFormed r (Step-WellFormed s w)

    -- However keys, searches, the search thread and the poll thread interleave, from the new tab on
    -- every selection lies among its rows, or is -1 for none, in the search shown and in all that
    -- the history keeps, and the flag of a search in flight is set exactly while the thread
    -- searches, so that no handler waits in join() for a search that is still on its way; provided
    -- that what the search returns has selections among its own rows.
    pub tab-WellFormed : {tab : MempoolTab D} → Reaches new_tab tab → WellFormed tab
    tab-WellFormed r = Reaches-WellFormed r new_tab-WellFormed
