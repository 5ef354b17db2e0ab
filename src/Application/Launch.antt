-- ===== src/Application/Launch.antt =====
-- src/main.cpp: how often bitcoind is launched while the node is not connected.
use mathlib.Core.Path.{subst}
use bitcoin_tui.Base.{ℕ, zero, suc, ◌+◌, ◌≤◌, true, false, ◌≡◌, refl, ◌∙◌, ap, sym, arith}
use bitcoin_tui.Application.Overlay.{
  return_key, idle, flag_cleared, Pauses, Application, is_zero, step_of, thread_step, thread_steps,
  launch, launch_unless_done, overlay_return, overlay_key,
}
use bitcoin_tui.Application.{Handlers, handle_event}
use bitcoin_tui.Application.Steps.{handled, thread_ran, Reaches, here, after, gaps, Reaches-Reaches}
use bitcoin_tui.Application.Counts.{IsReady, ready-Counts, Reaches-Counts}

-- The thread's store of launch_done falls between the load of it and the handler's own store.
abbrev late_store : Pauses
late_store = record { before_done = 0; before_stores = 1; between_stores = 0; before_exit = 0 }

module _ {T : Type 0} where
  -- A state with the first button selected, without a connection: the thread stands between its two
  -- stores after `n` launches.
  abbrev gap_state : ℕ → Application T → Application T
  gap_state n s = record s {
    connected = false;
    can_launch = true;
    launch_thread = flag_cleared;
    launch_in_flight = false;
    launch_done = false;
    launches = n;
  }

  launch_again :
      (h : Handlers T) (n : ℕ) (s : Application T)
      → is_zero s.conn_overlay_sel ≡ true
      → Reaches h (gap_state n s) (gap_state (suc n) s)
  launch_again h n s button =
      subst (Reaches h (gap_state n s)) again
        (after (handled late_store return_key) (after thread_ran here))
    where
      again :
          thread_step (handle_event h late_store return_key (gap_state n s)).1 ≡ gap_state (suc n) s
      again =
          unfold handle_event overlay_key overlay_return launch_unless_done launch thread_steps
            thread_step step_of in
          rw button refl

  launches_again :
      (h : Handlers T) (k n : ℕ) (s : Application T)
      → is_zero s.conn_overlay_sel ≡ true
      → Reaches h (gap_state n s) (gap_state (k + n) s)
  launches_again h zero n s button =
      subst (λ m. Reaches h (gap_state n s) (gap_state m s)) (omega arith) here
  launches_again h (suc k) n s button =
      let one_more : suc (k + n) ≡ suc k + n = omega arith in
      subst (λ m. Reaches h (gap_state n s) (gap_state m s)) one_more
        (Reaches-Reaches h (launches_again h k n s button) (launch_again h (k + n) s button))

  -- The state with the fields that IsReady and the selected button fix.
  abbrev ready_state : Application T → Application T
  ready_state s = record s {
    connected = false;
    can_launch = true;
    launch_thread = idle;
    launch_in_flight = false;
    launch_done = false;
  }

  IsReady-ready_state : (s : Application T) → IsReady s → s.can_launch ≡ true → s ≡ ready_state s
  IsReady-ready_state s r can =
      ap (λ b. record s { connected = b }) r.disconnected
      ∙ ap (λ b. record s { connected = false; can_launch = b }) can
      ∙ ap (λ b. record s { connected = false; can_launch = true; launch_thread = b }) r.no_thread
      ∙ ap (λ b. record (ready_state s) { launch_in_flight = b; launch_done = s.launch_done })
          r.not_in_flight
      ∙ ap (λ b. record (ready_state s) { launch_done = b }) r.not_done

  first_launch :
      (h : Handlers T) (s : Application T)
      → is_zero s.conn_overlay_sel ≡ true
      → Reaches h (ready_state s) (gap_state (suc s.launches) s)
  first_launch h s button =
      subst (Reaches h (ready_state s)) launched
        (after (handled late_store return_key) (after thread_ran here))
    where
      launched :
          thread_step (handle_event h late_store return_key (ready_state s)).1
          ≡ gap_state (suc s.launches) s
      launched =
          unfold handle_event overlay_key overlay_return launch_unless_done launch thread_steps
            thread_step step_of in
          rw button refl

  many_launches :
      (h : Handlers T) (n : ℕ) (s : Application T)
      → is_zero s.conn_overlay_sel ≡ true
      → (u : Application T) × Reaches h (ready_state s) u × (u.launches ≡ s.launches + n)
  many_launches h zero s button = (ready_state s, here, omega arith)
  many_launches h (suc n) s button = (
    gap_state (n + suc s.launches) s,
    Reaches-Reaches h (first_launch h s button) (launches_again h n (suc s.launches) s button),
    omega arith,
  )

  -- However events, the loads and stores of their handler and the steps of the thread interleave while
  -- the node is not connected, bitcoind is launched at most once, and once more for each event that
  -- comes while the thread has cleared launch_in_flight and not yet set launch_done. There is no
  -- other bound: any number of launches can be reached. This is from a state in which nothing has
  -- been launched yet and the button for it is selected.
  pub Reaches-launches :
      (h : Handlers T) (n : ℕ) (s t : Application T) (path : Reaches h s t)
      → IsReady s
      → s.can_launch ≡ true
      → is_zero s.conn_overlay_sel ≡ true
      → (t.launches ≤ s.launches + 1 + gaps h path)
        × (u : Application T) × Reaches h s u
        × (u.launches ≡ s.launches + n)
  Reaches-launches h n s t path r can button =
      let (u, there, many) =
        subst (λ v. (u : Application T) × Reaches h v u × (u.launches ≡ v.launches + n))
          (sym (IsReady-ready_state s r can)) (many_launches h n s button) in
      (Reaches-Counts h s.launches path (ready-Counts s r), u, there, many)
