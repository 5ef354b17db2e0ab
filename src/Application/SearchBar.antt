-- ===== src/Application/SearchBar.antt =====
-- src/main.cpp: the search bar, from the key that opens it to the search.
use bitcoin_tui.Base.{
  Bool, true, false, Bool-cases, inl, inr, List, [], ◌∷◌, ◌++◌, Bytes, codes, compare_bytes,
  if◌then◌else◌, ◌||◌, ◌&&◌, none, ℤ, pos, leb_ℤ, ltb_ℤ, length, ◌≡◌, refl, ◌∙◌, ap,
}
use bitcoin_tui.State.{is_txid, is_height}
use bitcoin_tui.Format.{trimmed}
use bitcoin_tui.Application.Overlay.{
  Event, escape, return_key, backspace, character, left_pressed, Pauses, Application,
}
use bitcoin_tui.Application.{
  Handlers, popped, close_search, open_search, with_tabs, search_for, search_key, or_else,
  after_overlay, after_tools, focused_key, normal_key, tab_event, key_event, connected_event,
  handle_event,
}

-- The events that leave the search bar open, but a press of the left button, which may choose a tab.
abbrev Typing : Event → Type 0
Typing escape = ⊥
Typing return_key = ⊥
Typing (left_pressed x y) = ⊥
Typing _ = Unit

abbrev pub AllTyping : List Event → Type 0
AllTyping [] = Unit
AllTyping (event ∷ events) = Typing event × AllTyping events

-- The text that they leave of a text: a character goes to the end, Backspace takes the last byte.
abbrev typed : Event → Bytes → Bytes
typed backspace s = popped s
typed (character c) s = s ++ c
typed _ s = s

abbrev pub typed_by : List Event → Bytes → Bytes
typed_by [] s = s
typed_by (event ∷ events) s = typed_by events (typed event s)

abbrev pub slash : Event
slash = character (codes "/")

module _ {T : Type 0} (h : Handlers T) where
  -- The events, one behind the other.
  unfoldable pub handle_events : Pauses → List Event → Application T → Application T
  handle_events p [] s = s
  handle_events p (event ∷ events) s = handle_events p events (handle_event h p event s).1

  -- No tab takes the key that opens the search bar.
  pub record LeavesSlash (s : ℤ × T) : Type 0 where
    pub tools : h.handle_tools_input slash s ≡ (false, s.0, s.1)
    pub overlay : h.handle_tx_overlay slash s ≡ (none, s.0, s.1)
    pub addnode : h.handle_addnode_input slash s ≡ (false, s.0, s.1)
    pub ban : h.handle_ban_input slash s ≡ (false, s.0, s.1)
    pub focused : h.handle_focused_event slash s ≡ (false, s.0, s.1)

  -- The search bar is open with the text `text`.
  abbrev with_text : Bytes → Application T → Application T
  with_text text s = record s {
    launch_done = false;
    global_search_active = true;
    global_search_str = text;
  }

  -- The search bar is closed, and the tabs are those that a search for `q` leaves if it is one.
  abbrev pub searched : Bytes → Application T → Application T
  searched q s =
      with_tabs h
        (if is_txid q || is_height q
          then h.trigger_search q true (s.tab_index, s.tabs)
          else (s.tab_index, s.tabs))
        (record s { launch_done = false; global_search_active = false; global_search_str = [] })

  Typing-handled :
      (p : Pauses) (event : Event) (text : Bytes) (s : Application T)
      → s.connected ≡ true
      → Typing event
      → (handle_event h p event (with_text text s)).1 ≡ with_text (typed event text) s
  unfolding handle_event connected_event key_event search_key
  Typing-handled p escape text s c h1 = absurd h1
  Typing-handled p return_key text s c h1 = absurd h1
  Typing-handled p (left_pressed x y) text s c h1 = absurd h1
  Typing-handled p _ text s c h1 = rw c refl

  return-handled :
      (p : Pauses) (text : Bytes) (s : Application T)
      → s.connected ≡ true
      → (handle_event h p return_key (with_text text s)).1 ≡ searched (trimmed text) s
  unfolding handle_event connected_event key_event search_key close_search search_for
  return-handled p text s c =
      let q = trimmed text in
      elim (Bool-cases (is_txid q || is_height q)) [
        | inl e ↦ rw (c, e) refl
        | inr e ↦ rw (c, e) refl
      ]

  handle_events-AllTyping :
      (p : Pauses) (events : List Event) (text : Bytes) (s : Application T)
      → s.connected ≡ true
      → AllTyping events
      → handle_events p (events ++ return_key ∷ []) (with_text text s)
        ≡ searched (trimmed (typed_by events text)) s
  unfolding handle_events
  handle_events-AllTyping p [] text s c t = return-handled p text s c
  handle_events-AllTyping p (event ∷ events) text s c (t, ts) =
      ap (handle_events p (events ++ return_key ∷ [])) (Typing-handled p event text s c t)
      ∙ handle_events-AllTyping p events (typed event text) s c ts

  or_else-passes :
      (handler : ℤ × T → Bool × ℤ × T) (next : Application T → Bool × Application T)
      (s : Application T)
      → handler (s.tab_index, s.tabs) ≡ (false, s.tab_index, s.tabs)
      → or_else h handler next s ≡ next s
  unfolding or_else
  or_else-passes handler next s e = rw e refl

  focused_key-slash :
      (s : Application T)
      → LeavesSlash (s.tab_index, s.tabs)
      → focused_key h slash s ≡ (true, open_search s)
  unfolding focused_key
  focused_key-slash s leaves =
      let opened : normal_key h slash s ≡ (true, open_search s) =
        unfold normal_key compare_bytes in refl in
      elim (Bool-cases
        (leb_ℤ (pos 0) s.tab_index && ltb_ℤ s.tab_index (pos (length s.tab_labels)))) [
          | inl e ↦ rw e (
              or_else-passes (h.handle_focused_event slash) (normal_key h slash) s leaves.focused
              ∙ opened)
          | inr e ↦ rw e opened
        ]

  after_tools-slash :
      (s : Application T)
      → LeavesSlash (s.tab_index, s.tabs)
      → after_tools h slash s
        ≡ or_else h
            (h.handle_addnode_input slash)
            (or_else h (h.handle_ban_input slash) (focused_key h slash))
            s
  unfolding after_tools after_overlay
  after_tools-slash s leaves =
      ap
        (λ r.
          after_overlay h r
            (or_else h (h.handle_addnode_input slash)
              (or_else h (h.handle_ban_input slash) (focused_key h slash)))
            s)
        leaves.overlay

  tab_event-slash :
      (s : Application T)
      → LeavesSlash (s.tab_index, s.tabs)
      → tab_event h slash s ≡ (true, open_search s)
  unfolding tab_event
  tab_event-slash s leaves =
      let bans : Application T → Bool × Application T =
        or_else h (h.handle_ban_input slash) (focused_key h slash) in
      or_else-passes (h.handle_tools_input slash) (after_tools h slash) s leaves.tools
      ∙ after_tools-slash s leaves
      ∙ or_else-passes (h.handle_addnode_input slash) bans s leaves.addnode
      ∙ or_else-passes (h.handle_ban_input slash) (focused_key h slash) s leaves.ban
      ∙ focused_key-slash s leaves

  slash-handled :
      (p : Pauses) (s : Application T)
      → s.connected ≡ true
      → s.global_search_active ≡ false
      → LeavesSlash (s.tab_index, s.tabs)
      → (handle_event h p slash s).1 ≡ with_text [] s
  slash-handled p s c inactive leaves =
      let t = record s { launch_done = false } in
      let leaves_t : LeavesSlash (t.tab_index, t.tabs) = record {
        tools = leaves.tools;
        overlay = leaves.overlay;
        addnode = leaves.addnode;
        ban = leaves.ban;
        focused = leaves.focused;
      } in
      let goes_on : handle_event h p slash s ≡ key_event h slash t =
        unfold handle_event connected_event in rw c refl in
      let reaches_tabs : key_event h slash t ≡ tab_event h slash t =
        unfold key_event in rw inactive refl in
      ap (λ r. r.1) (goes_on ∙ reaches_tabs ∙ tab_event-slash t leaves_t)
      ∙ unfold open_search in refl

  -- While the node is connected, no tab takes the key / and the search bar is closed: / opens the
  -- search bar, no tab gets any of the keys that are then typed, and Enter closes it and looks the
  -- text up, without the blanks around it, if it is a transaction id or a height; otherwise the tabs
  -- stay as they are. Backspace takes the last byte; Escape and a press of the left button are left out.
  pub handle_events-search :
      (p : Pauses) (events : List Event) (s : Application T)
      → s.connected ≡ true
      → s.global_search_active ≡ false
      → LeavesSlash (s.tab_index, s.tabs)
      → AllTyping events
      → handle_events p (slash ∷ (events ++ return_key ∷ [])) s
        ≡ searched (trimmed (typed_by events [])) s
  handle_events-search p events s c inactive leaves t =
      unfold handle_events in
      (ap (handle_events p (events ++ return_key ∷ [])) (slash-handled p s c inactive leaves)
        ∙ handle_events-AllTyping p events [] s c t)
