-- ===== src/Application/Counts.antt =====
-- src/main.cpp: what the handler and the launch thread keep of the number of launches.
use bitcoin_tui.Base.{
  ℕ, zero, suc, ◌+◌, ◌≤◌, Bool, true, false, ◌&&◌, not, if◌then◌else◌, codes, same_bytes, ◌≡◌, refl,
  ◌∙◌, ap, sym, arith,
}
use bitcoin_tui.Application.Overlay.{
  Event, return_key, character, LaunchThread, idle, launching, flag_cleared, Pauses, Application,
  is_zero, exit_loop, step_of, thread_step, thread_steps, launch, or_exit, launch_unless_done,
  overlay_return, overlay_key,
}
use bitcoin_tui.Application.{Handlers, handle_event}
use bitcoin_tui.Application.Steps.{
  gap, Step, handled, thread_ran, Reaches, here, after, Step_gap, gaps,
}

abbrev is_launching : LaunchThread → Bool
is_launching launching = true
is_launching _ = false

-- Whether the launch that is allowed is used up: `done` is launch_done.
abbrev spent : LaunchThread → Bool → ℕ
spent idle false = 0
spent _ _ = 1

module _ {T : Type 0} where
  abbrev Counts : ℕ → Application T → Type 0
  Counts n s =
      (s.connected ≡ false)
      × (s.launch_in_flight ≡ is_launching s.launch_thread)
      × (s.launches ≤ n + spent s.launch_thread s.launch_done)

  -- What the steps of a thread that is not launching leave alone.
  abbrev Rests : Application T → Application T → Type 0
  Rests s t =
      (t.connected ≡ s.connected)
      × (t.launch_in_flight ≡ s.launch_in_flight)
      × (t.launches ≡ s.launches)
      × (is_launching t.launch_thread ≡ false)

  step_of-Counts :
      (n : ℕ) (thread : LaunchThread) (s : Application T)
      → Counts n (record s { launch_thread = thread })
      → Counts n (step_of thread (record s { launch_thread = thread }))
  unfolding step_of
  step_of-Counts n idle s k = k
  step_of-Counts n launching s (c, f, l) = (c, refl, omega (arith, l))
  step_of-Counts n flag_cleared s (c, f, l) = (c, f, omega (arith, l))

  thread_step-Counts : (n : ℕ) (s : Application T) → Counts n s → Counts n (thread_step s)
  unfolding thread_step
  thread_step-Counts n s k = step_of-Counts n s.launch_thread s k

  thread_steps-Counts : (k n : ℕ) (s : Application T) → Counts n s → Counts n (thread_steps k s)
  unfolding thread_steps
  thread_steps-Counts zero n s c = c
  thread_steps-Counts (suc k) n s c =
      thread_steps-Counts k n (thread_step s) (thread_step-Counts n s c)

  step_of-Rests :
      (thread : LaunchThread) (s : Application T)
      → is_launching thread ≡ false
      → Rests s (step_of thread (record s { launch_thread = thread }))
  unfolding step_of
  step_of-Rests idle s h = (refl, refl, refl, refl)
  step_of-Rests launching s h = absurd (cc)
  step_of-Rests flag_cleared s h = (refl, refl, refl, refl)

  thread_steps-Rests :
      (k : ℕ) (s : Application T)
      → is_launching s.launch_thread ≡ false
      → Rests s (thread_steps k s)
  unfolding thread_steps thread_step
  thread_steps-Rests zero s h = (refl, refl, refl, h)
  thread_steps-Rests (suc k) s h =
      let (c, f, l, r) = step_of-Rests s.launch_thread s h in
      let (c', f', l', r') = thread_steps-Rests k (thread_step s) r in (c' ∙ c, f' ∙ f, l' ∙ l, r')

  -- A thread that has ended takes no steps.
  thread_steps-idle :
      (k : ℕ) (s : Application T)
      → thread_steps k (record s { launch_thread = idle }) ≡ record s { launch_thread = idle }
  unfolding thread_steps thread_step step_of
  thread_steps-idle zero s = refl
  thread_steps-idle (suc k) s = thread_steps-idle k s

  -- When launch_done is found false, a launch is left, or the event came in the gap.
  spent-gap :
      (k : ℕ) (thread : LaunchThread) (s : Application T)
      → is_launching thread ≡ false
      → (thread_steps k (record s { launch_thread = thread })).launch_done ≡ false
      → spent thread s.launch_done ≤ gap thread
  spent-gap k idle s h d =
      let not_done : s.launch_done ≡ false =
        ap (λ t. t.launch_done) (sym (thread_steps-idle k s)) ∙ d in
      rw not_done (omega arith)
  spent-gap k launching s h d = absurd (cc)
  spent-gap k flag_cleared s h d = omega arith

  launch-Counts :
      (p : Pauses) (n : ℕ) (s : Application T)
      → s.connected ≡ false
      → is_launching s.launch_thread ≡ false
      → s.launches ≤ n
      → Counts n (launch p s)
  unfolding launch
  launch-Counts p n s c r l =
      let raised = record s { launch_in_flight = true } in
      let stored = thread_steps p.between_stores raised in
      let (c1, f1, l1, r1) = thread_steps-Rests p.between_stores raised r in
      let (c2, f2, l2, r2) = thread_steps-Rests 2 (record stored { launch_done = false }) r1 in
      (c2 ∙ c1 ∙ c, f2 ∙ f1, omega (arith, l))

  if-Counts :
      (n : ℕ) (b : Bool) (s t : Application T)
      → (b ≡ true → Counts n s)
      → (b ≡ false → Counts n t)
      → Counts n (if b then s else t)
  if-Counts n true s t k l = k refl
  if-Counts n false s t k l = l refl

  or_exit-Counts : (n : ℕ) (s : Application T) → Counts n s → Counts n (or_exit s)
  unfolding or_exit exit_loop
  or_exit-Counts n s k = if-Counts n (not s.launch_in_flight) (exit_loop s) s (λ _. k) (λ _. k)

  more-Counts : (n m : ℕ) (s : Application T) → Counts n s → Counts (n + m) s
  more-Counts n m s (c, f, l) = (c, f, omega (arith, l))

  launch_unless_done-Counts :
      (p : Pauses) (n : ℕ) (s : Application T)
      → s.connected ≡ false
      → is_launching s.launch_thread ≡ false
      → Counts n s
      → (s.launch_done ≡ false → s.launches ≤ n)
      → Counts n (launch_unless_done p s)
  unfolding launch_unless_done
  launch_unless_done-Counts p n s c r k l =
      let (c', f', l', r') = thread_steps-Rests p.before_stores s r in
      if-Counts n (not s.launch_done) _ _
        (λ d.
          launch-Counts p n (thread_steps p.before_stores s) (c' ∙ c) r'
            (omega (arith, l', l (ground (arith, d)))))
        (λ d.
          or_exit-Counts n (thread_steps p.before_exit s) (thread_steps-Counts p.before_exit n s k))

  overlay_return-Counts :
      (p : Pauses) (n : ℕ) (s : Application T)
      → Counts n s
      → Counts (n + gap s.launch_thread) (overlay_return p s)
  unfolding overlay_return
  overlay_return-Counts p n s k =
      let m = n + gap s.launch_thread in
      let k' = more-Counts n (gap s.launch_thread) s k in
      let u = thread_steps p.before_done s in
      if-Counts m (s.can_launch && is_zero s.conn_overlay_sel && not s.launch_in_flight) _ _
        (λ e.
          let rests : is_launching s.launch_thread ≡ false = sym k.1 ∙ ground (arith, e) in
          let (c, f, l, r) = thread_steps-Rests p.before_done s rests in
          launch_unless_done-Counts p m u (c ∙ k.0) r (thread_steps-Counts p.before_done m s k')
            (λ d.
              let left = spent-gap p.before_done s.launch_thread s rests d in
              omega (arith, l, left, k.2)))
        (λ e.
          or_exit-Counts m (thread_steps p.before_exit s)
            (thread_steps-Counts p.before_exit m s k'))

  overlay_key-Counts :
      (p : Pauses) (n : ℕ) (event : Event) (s : Application T)
      → Counts n s
      → Counts (n + gap s.launch_thread) (overlay_key p event s)
  unfolding overlay_key exit_loop
  overlay_key-Counts p n return_key s k = overlay_return-Counts p n s k
  overlay_key-Counts p n (character c) s k =
      let k' = more-Counts n (gap s.launch_thread) s k in
      if-Counts _ (same_bytes c (codes "q")) (exit_loop s) s (λ _. k') (λ _. k')
  overlay_key-Counts p n _ s k = more-Counts n (gap s.launch_thread) s k

  choice-Counts :
      (n : ℕ) (connected : Bool) (s : Bool × Application T) (t : Application T)
      → connected ≡ false
      → Counts n t
      → Counts n (if connected then s else (true, t)).1
  choice-Counts n true s t e k = cc
  choice-Counts n false s t e k = k

  Step-Counts :
      (h : Handlers T) (n : ℕ) {s t : Application T} (step : Step h s t)
      → Counts n s
      → Counts (n + Step_gap h step) t
  unfolding handle_event Step_gap
  Step-Counts h n {s} (handled p event) k =
      choice-Counts _ s.connected _ (overlay_key p event s) k.0 (overlay_key-Counts p n event s k)
  Step-Counts h n {s} thread_ran k = more-Counts n 0 (thread_step s) (thread_step-Counts n s k)

  pub Reaches-Counts :
      (h : Handlers T) (n : ℕ) {s t : Application T} (path : Reaches h s t)
      → Counts n s
      → t.launches ≤ n + 1 + gaps h path
  unfolding gaps
  Reaches-Counts h n {s} here k = spent_one s.launch_thread s.launch_done k.2
    where
      spent_one :
          (thread : LaunchThread) (done : Bool)
          → s.launches ≤ n + spent thread done
          → s.launches ≤ n + 1 + 0
      spent_one idle false l = omega (arith, l)
      spent_one idle true l = omega (arith, l)
      spent_one launching done l = omega (arith, l)
      spent_one flag_cleared done l = omega (arith, l)
  Reaches-Counts h n (after step more) k =
      omega (arith, Reaches-Counts h (n + Step_gap h step) more (Step-Counts h n step k))

  -- Nothing has been launched since the node was last connected.
  pub record IsReady (s : Application T) : Type 0 where
    pub disconnected : s.connected ≡ false
    pub no_thread : s.launch_thread ≡ idle
    pub not_in_flight : s.launch_in_flight ≡ false
    pub not_done : s.launch_done ≡ false

  pub ready-Counts : (s : Application T) → IsReady s → Counts s.launches s
  ready-Counts s r =
      (r.disconnected, rw r.no_thread r.not_in_flight, rw (r.no_thread, r.not_done) (omega arith))
