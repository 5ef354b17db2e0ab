-- ===== src/Application/Steps.antt =====
-- src/main.cpp: the steps of the event handler and of the thread that launches bitcoind.
use bitcoin_tui.Base.{ℕ, ◌+◌}
use bitcoin_tui.Application.Overlay.{
  LaunchThread, flag_cleared, Pauses, Event, Application, thread_step,
}
use bitcoin_tui.Application.{Handlers, handle_event}

-- One between the thread's two stores, and zero otherwise.
abbrev pub gap : LaunchThread → ℕ
gap flag_cleared = 1
gap _ = 0

module _ {T : Type 0} (h : Handlers T) where
  -- An event is handled, while the thread takes steps of its own; or the thread goes on.
  pub data Step : Application T → Application T → Type 0 where
    handled : {s : Application T} (p : Pauses) (event : Event) → Step s (handle_event h p event s).1
    thread_ran : {s : Application T} → Step s (thread_step s)

  pub data Reaches : Application T → Application T → Type 0 where
    here : {s : Application T} → Reaches s s
    after : {s t u : Application T} → Step s t → Reaches t u → Reaches s u

  unfoldable pub Step_gap : {s t : Application T} → Step s t → ℕ
  Step_gap {s} (handled p event) = gap s.launch_thread
  Step_gap thread_ran = 0

  -- How many events come between the thread's two stores.
  unfoldable pub gaps : {s t : Application T} → Reaches s t → ℕ
  unfolding Step_gap
  gaps here = 0
  gaps (after step more) = Step_gap step + gaps more

  pub Reaches-Reaches : {s t u : Application T} → Reaches s t → Reaches t u → Reaches s u
  Reaches-Reaches here more = more
  Reaches-Reaches (after step there) more = after step (Reaches-Reaches there more)
