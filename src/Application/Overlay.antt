-- ===== src/Application/Overlay.antt =====
-- src/main.cpp: the state that the event handler of Application::run works on, the overlay that is
-- shown while the node is not connected, and the thread that launches bitcoind.
use bitcoin_tui.Base.{
  ℕ, zero, suc, Bool, true, false, ◌&&◌, not, List, Bytes, codes, same_bytes, ◌==◌, if◌then◌else◌,
  ℤ, pos, negsuc, ◌+ℤ◌, ◌-ℤ◌, min_ℤ, max_ℤ,
}

-- What the handler tells apart: a press of the left mouse button has its place.
pub data Event : Type 0 where
  escape return_key backspace tab_key tab_reverse arrow_left arrow_right : Event
  character : Bytes → Event
  moved : Event
  left_pressed : ℤ → ℤ → Event
  other_mouse other_event : Event

-- The thread that runs launch_bitcoind: it clears launch_in_flight and then sets launch_done.
pub data LaunchThread : Type 0 where
  idle launching flag_cleared : LaunchThread

-- How many steps the launch thread takes while the handler works on Enter: behind the load of
-- launch_in_flight, between the load of launch_done and the stores, between the two stores, and
-- before launch_in_flight is loaded again.
pub record Pauses : Type 0 where
  pub before_done : ℕ
  pub before_stores : ℕ
  pub between_stores : ℕ
  pub before_exit : ℕ

-- `tabs` is the state of all tabs. `connected` is that of AppState; `launches` counts the threads
-- that were started, and `exited` is whether the loop was told to end.
pub record Application (T : Type 0) : Type 0 where
  pub connected : Bool
  pub can_launch : Bool
  pub launch_in_flight : Bool
  pub launch_done : Bool
  pub launch_thread : LaunchThread
  pub launches : ℕ
  pub conn_overlay_sel : ℤ
  pub exited : Bool
  pub tab_labels : List Bytes
  pub tab_index : ℤ
  pub global_search_active : Bool
  pub global_search_str : Bytes
  pub tabs : T

abbrev pub is_zero : ℤ → Bool
is_zero (pos n) = n == 0
is_zero (negsuc n) = false

module _ {T : Type 0} where
  unfoldable pub exit_loop : Application T → Application T
  exit_loop s = record s { exited = true }

  -- The thread's next step.
  unfoldable pub step_of : LaunchThread → Application T → Application T
  step_of idle s = s
  step_of launching s = record s { launch_in_flight = false; launch_thread = flag_cleared }
  step_of flag_cleared s = record s { launch_done = true; launch_thread = idle }

  unfoldable pub thread_step : Application T → Application T
  unfolding step_of
  thread_step s = step_of s.launch_thread s

  unfoldable pub thread_steps : ℕ → Application T → Application T
  thread_steps zero s = s
  thread_steps (suc k) s = thread_steps k (thread_step s)

  -- The stores, and the new thread. A thread that is joined takes the steps that are left, at most
  -- two.
  unfoldable pub launch : Pauses → Application T → Application T
  unfolding thread_steps
  launch p s =
      let stored = thread_steps p.between_stores (record s { launch_in_flight = true }) in
      let joined = thread_steps 2 (record stored { launch_done = false }) in
      record joined { launch_thread = launching; launches = suc s.launches }

  abbrev pub max_sel : Application T → ℤ
  max_sel s = if s.can_launch then pos 1 else pos 0

  -- `else if (!launch_in_flight.load())`
  unfoldable pub or_exit : Application T → Application T
  unfolding exit_loop
  or_exit s = if not s.launch_in_flight then exit_loop s else s

  -- From the load of launch_done on.
  unfoldable pub launch_unless_done : Pauses → Application T → Application T
  unfolding launch or_exit
  launch_unless_done p s =
      if not s.launch_done
      then launch p (thread_steps p.before_stores s)
      else or_exit (thread_steps p.before_exit s)

  unfoldable pub overlay_return : Pauses → Application T → Application T
  unfolding launch_unless_done
  overlay_return p s =
      if s.can_launch && is_zero s.conn_overlay_sel && not s.launch_in_flight
      then launch_unless_done p (thread_steps p.before_done s)
      else or_exit (thread_steps p.before_exit s)

  -- The overlay that is shown while the node is not connected: it takes every event.
  unfoldable pub overlay_key : Pauses → Event → Application T → Application T
  unfolding overlay_return exit_loop
  overlay_key p escape s = exit_loop s
  overlay_key p (character c) s = if same_bytes c (codes "q") then exit_loop s else s
  overlay_key p return_key s = overlay_return p s
  overlay_key p arrow_left s = record s {
    conn_overlay_sel = max_ℤ (s.conn_overlay_sel -ℤ pos 1) (pos 0);
  }
  overlay_key p arrow_right s = record s {
    conn_overlay_sel = min_ℤ (s.conn_overlay_sel +ℤ pos 1) (max_sel s);
  }
  overlay_key p _ s = s
