-- ===== src/Application.antt =====
-- src/main.cpp: the event handler of Application::run, which shares the events out.
pub mod Overlay
pub mod SearchBar
pub mod Search
pub mod Steps
pub mod Counts
pub mod Launch
mod Tests
use bitcoin_tui.Base.{
  ℕ, suc, ◌+◌, Bool, true, false, ◌&&◌, ◌||◌, List, [], ◌∷◌, ◌++◌, Bytes, codes, same_bytes, length,
  if◌then◌else◌, Option, none, some, ℤ, pos, ◌+ℤ◌, ◌-ℤ◌, ltb_ℤ, leb_ℤ,
}
use bitcoin_tui.State.{is_txid, is_height}
use bitcoin_tui.Format.{trimmed}
use bitcoin_tui.Application.Overlay.{
  Event, escape, return_key, backspace, tab_key, tab_reverse, arrow_left, arrow_right, character,
  moved, left_pressed, Pauses, Application, is_zero, exit_loop, overlay_key,
}

-- The handlers of the tabs: whether they took the event, the index of the tab shown, which a search
-- may change, and the tabs.
pub record Handlers (T : Type 0) : Type 0 where
  pub handle_tools_input : Event → ℤ × T → Bool × ℤ × T
  pub handle_tx_overlay : Event → ℤ × T → Option Bool × ℤ × T
  pub handle_addnode_input : Event → ℤ × T → Bool × ℤ × T
  pub handle_ban_input : Event → ℤ × T → Bool × ℤ × T
  pub handle_focused_event : Event → ℤ × T → Bool × ℤ × T
  pub handle_io_nav : Event → ℤ × T → Bool × ℤ × T
  pub handle_enter : Event → ℤ × T → Bool × ℤ × T
  pub handle_escape : Event → ℤ × T → Bool × ℤ × T
  pub trigger_search : Bytes → Bool → ℤ × T → ℤ × T

-- The first tab whose label lies at `mx`, from the tab `i` on, which begins at `x`.
unfoldable pub clicked_tab : ℤ → ℤ → ℕ → List Bytes → Option ℤ
clicked_tab mx x i [] = none
clicked_tab mx x i (label ∷ labels) =
    let w = pos (length label + 2) in
    let more = clicked_tab mx (x +ℤ w +ℤ pos 1) (suc i) labels in
    if leb_ℤ x mx && ltb_ℤ mx (x +ℤ w) then some (pos i) else more

-- std::string::pop_back, on a text that may be empty.
unfoldable pub popped : Bytes → Bytes
popped [] = []
popped (c ∷ []) = []
popped (c ∷ d ∷ s) = c ∷ popped (d ∷ s)

module _ {T : Type 0} where
  unfoldable pub close_search : Application T → Application T
  close_search s = record s { global_search_active = false; global_search_str = [] }

  unfoldable pub open_search : Application T → Application T
  open_search s = record s { global_search_active = true; global_search_str = [] }

  module _ (h : Handlers T) where
    -- What a handler leaves of the tabs.
    abbrev with_tabs : ℤ × T → Application T → Application T
    with_tabs (tab_index, tabs) s = record s { tab_index = tab_index; tabs = tabs }

    unfoldable pub search_for : Bytes → Application T → Application T
    search_for q s =
        if is_txid q || is_height q
        then with_tabs (h.trigger_search q true (s.tab_index, s.tabs)) s
        else s

    -- The search bar, when it is open.
    unfoldable pub search_key : Event → Application T → Bool × Application T
    unfolding close_search search_for
    search_key escape s = (true, close_search s)
    search_key return_key s = (true, search_for (trimmed s.global_search_str) (close_search s))
    search_key backspace s = (true, record s { global_search_str = popped s.global_search_str })
    search_key tab_key s = (true, s)
    search_key tab_reverse s = (true, s)
    search_key arrow_left s = (true, s)
    search_key arrow_right s = (true, s)
    search_key (character c) s = (true, record s { global_search_str = s.global_search_str ++ c })
    search_key _ s = (false, s)

    -- `next` when the handler has not taken the event.
    or_else :
        (ℤ × T → Bool × ℤ × T)
        → (Application T → Bool × Application T)
        → Application T
        → Bool × Application T
    or_else handler next s =
        let (taken, tab_index, tabs) = handler (s.tab_index, s.tabs) in
        let handled = with_tabs (tab_index, tabs) s in
        let rest = next handled in if taken then (true, handled) else rest

    -- Escape and q: the loop ends, unless the Mempool tab has taken Escape.
    unfoldable pub quit_key : Event → Application T → Bool × Application T
    unfolding exit_loop or_else
    quit_key escape s = or_else (h.handle_escape escape) (λ t. (true, exit_loop t)) s
    quit_key (character c) s = if same_bytes c (codes "q") then (true, exit_loop s) else (false, s)
    quit_key _ s = (false, s)

    -- `true` for the key that opens the search bar.
    abbrev is_slash : Event → Bool
    is_slash (character c) = same_bytes c (codes "/")
    is_slash _ = false

    unfoldable pub normal_key : Event → Application T → Bool × Application T
    unfolding open_search or_else quit_key
    normal_key event s =
        if is_slash event
        then (true, open_search s)
        else or_else (h.handle_io_nav event) (or_else (h.handle_enter event) (quit_key event)) s

    -- The tab that is shown, if there is one.
    focused_key : Event → Application T → Bool × Application T
    unfolding or_else normal_key
    focused_key event s =
        if leb_ℤ (pos 0) s.tab_index && ltb_ℤ s.tab_index (pos (length s.tab_labels))
        then or_else (h.handle_focused_event event) (normal_key event) s
        else normal_key event s

    -- Whether the overlay of the Mempool tab has an answer.
    after_overlay :
        Option Bool × ℤ × T
        → (Application T → Bool × Application T)
        → Application T
        → Bool × Application T
    after_overlay (none, tab_index, tabs) next s = next (with_tabs (tab_index, tabs) s)
    after_overlay (some r, tab_index, tabs) next s = (r, with_tabs (tab_index, tabs) s)

    after_tools : Event → Application T → Bool × Application T
    unfolding or_else after_overlay focused_key
    after_tools event s =
        after_overlay (h.handle_tx_overlay event (s.tab_index, s.tabs))
          (or_else (h.handle_addnode_input event)
            (or_else (h.handle_ban_input event) (focused_key event)))
          s

    unfoldable pub tab_event : Event → Application T → Bool × Application T
    unfolding or_else after_tools
    tab_event event s = or_else (h.handle_tools_input event) (after_tools event) s

    unfoldable pub key_event : Event → Application T → Bool × Application T
    unfolding search_key tab_event
    key_event event s = if s.global_search_active then search_key event s else tab_event event s

    -- A press on the tab bar, which is in the row 4.
    unfoldable pub connected_event : Event → Application T → Bool × Application T
    unfolding clicked_tab key_event
    connected_event moved s = (false, s)
    connected_event (left_pressed mx y) s =
        let rest = key_event (left_pressed mx y) s in
        if is_zero (y -ℤ pos 4)
        then elim (clicked_tab mx (pos 1) 0 s.tab_labels) [
          | none ↦ rest
          | some i ↦ (true, record s { tab_index = i })
        ]
        else rest
    connected_event event s = key_event event s

    unfoldable pub handle_event : Pauses → Event → Application T → Bool × Application T
    unfolding connected_event overlay_key
    handle_event p event s =
        if s.connected
        then connected_event event (record s { launch_done = false })
        else (true, overlay_key p event s)
