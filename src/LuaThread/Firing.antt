-- ===== src/LuaThread/Firing.antt =====
-- src/tabs/luatab.cpp: how often the loop fires a timer that is due.
use bitcoin_tui.Base.{
  ℕ, zero, suc, ◌<◌, ◌≤◌, true, false, List, [], ◌∷◌, Bytes, leb, pos, ◌≤ℤ◌, ◌≡◌, refl, ◌∙◌, ap,
  arith,
}
use bitcoin_tui.LuaThread.Map.{insert}
use bitcoin_tui.LuaThread.State.{
  LuaTimer, Lua, LuaThread, finished, stopped, no_args, returned, later, max_time, apply_calls,
}
use bitcoin_tui.LuaThread.{clear_callback_error, on_resumed, drive, after_fire, fire, fire_due}

le→leb : (a b : ℕ) → a ≤ b → leb a b ≡ true
le→leb a b h = ground arith

lt→not_leb : (a b : ℕ) → b < a → leb a b ≡ false
lt→not_leb a b h = ground arith

max_time-right : (a b : ℕ) → a < b → max_time a b ≡ b
max_time-right a b h = ground arith

max_time-left : (a b : ℕ) → b ≤ a → max_time a b ≡ a
max_time-left a b h = ground arith

-- One timer is set.
abbrev pub alone : {D C Co W : Type 0} → ℕ → LuaTimer C → LuaThread D C Co W → LuaThread D C Co W
alone key timer st = record st { timers = (key, timer) ∷ [] }

module _ {D C Co W : Type 0} (lua : Lua D C Co W) (allowlist : List Bytes) (advance : ℕ → ℕ) where
  -- The callback returns without a yield, an error or a call, and does `ran` to the rest of Lua's
  -- state.
  abbrev pub Runs : C → (W → W) → Type 0
  Runs callback ran =
      (w : W)
      → (co : Co) × (lua.resume (lua.new_thread callback w).0 no_args (lua.new_thread callback w).1
          ≡ (returned, [], co, ran w))

  -- The state after a timer has fired once.
  abbrev fired : (W → W) → ℕ → LuaTimer C → LuaThread D C Co W → LuaThread D C Co W
  fired ran key timer st = record (clear_callback_error lua allowlist advance timer.id st) {
    now = advance st.now;
    world = ran st.world;
  }

  fire_due-alone :
      (rounds fuel key : ℕ) (timer : LuaTimer C) (ran : W → W) (st : LuaThread D C Co W)
      → Runs timer.callback ran
      → key ≤ st.now
      → fire_due lua allowlist advance (suc rounds) (suc fuel) (alone key timer st)
        ≡ fire_due lua allowlist advance rounds (suc fuel) (
            alone
              (max_time (advance st.now) (later key timer.interval))
              timer
              (fired ran key timer st))
  unfolding fire_due fire drive after_fire on_resumed clear_callback_error insert apply_calls
  fire_due-alone rounds fuel key timer ran st runs due =
      rw (le→leb key st.now due, (runs st.world).1) refl

  -- A timer with an interval of zero or less that is the only one and already due, and whose
  -- callback runs through, keeps the thread in the loop over the due timers: no number of rounds is
  -- enough to leave it. This holds for a clock that does not go back.
  pub fire_due-endless :
      (rounds fuel key : ℕ) (timer : LuaTimer C) (ran : W → W) (st : LuaThread D C Co W)
      → Runs timer.callback ran
      → timer.interval ≤ℤ pos 0
      → ((n : ℕ) → n ≤ advance n)
      → key ≤ st.now
      → (fire_due lua allowlist advance rounds (suc fuel) (alone key timer st)).0 ≡ stopped
  fire_due-endless zero fuel key timer ran st runs short forward due = unfold fire_due in refl
  fire_due-endless (suc rounds) fuel key timer ran st runs short forward due =
      let key' = max_time (advance st.now) (later key timer.interval) in
      let due' : key' ≤ advance st.now = ground (arith, forward st.now) in
      ap (λ r. r.0) (fire_due-alone rounds fuel key timer ran st runs due)
      ∙ fire_due-endless rounds fuel key' timer ran (fired ran key timer st) runs short forward due'

  fire_due-later :
      (rounds fuel key : ℕ) (timer : LuaTimer C) (st : LuaThread D C Co W)
      → st.now < key
      → fire_due lua allowlist advance (suc rounds) fuel (alone key timer st)
        ≡ (finished, alone key timer st)
  unfolding fire_due fire
  fire_due-later rounds fuel key timer st h = rw (lt→not_leb key st.now h) refl

  -- A timer that fell due less than its interval ago is fired once, and set to fall due one interval
  -- after it did: if it is the only one and its callback runs through.
  pub fire_due-once :
      (rounds fuel key : ℕ) (timer : LuaTimer C) (ran : W → W) (st : LuaThread D C Co W)
      → Runs timer.callback ran
      → key ≤ st.now
      → advance st.now < later key timer.interval
      → (end : LuaThread D C Co W) × (fire_due lua allowlist advance
            (suc (suc rounds))
            (suc fuel)
            (alone key timer st)
          ≡ (finished, end))
        × (end.timers ≡ (later key timer.interval, timer) ∷ [])
        × (end.world ≡ ran st.world)
  fire_due-once rounds fuel key timer ran st runs due early =
      let next = later key timer.interval in
      let st' = fired ran key timer st in
      (
        alone next timer st',
        fire_due-alone (suc rounds) fuel key timer ran st runs due
            ∙ ap (λ k. fire_due lua allowlist advance (suc rounds) (suc fuel) (alone k timer st'))
                (max_time-right (advance st.now) next early)
            ∙ fire_due-later rounds (suc fuel) next timer st' early,
        refl,
        refl,
      )

  -- A timer that has been woken is fired twice, not once: it falls due at TimePoint::min(), so that
  -- the time after one interval has passed too, and it is due again at once. This is where it is the
  -- only one, its callback runs through, and the second run takes less than the interval.
  pub fire_due-woken :
      (rounds fuel : ℕ) (timer : LuaTimer C) (ran : W → W) (st : LuaThread D C Co W)
      → Runs timer.callback ran
      → later 0 timer.interval ≤ advance st.now
      → advance (advance st.now) < later (advance st.now) timer.interval
      → (end : LuaThread D C Co W) × (fire_due lua allowlist advance
            (suc (suc (suc rounds)))
            (suc fuel)
            (alone 0 timer st)
          ≡ (finished, end))
        × (end.timers ≡ (later (advance st.now) timer.interval, timer) ∷ [])
        × (end.world ≡ ran (ran st.world))
  fire_due-woken rounds fuel timer ran st runs past early =
      let st' = fired ran 0 timer st in
      let again =
        fire_due-once rounds fuel (advance st.now) timer ran st' runs (omega arith) early in
      (
        again.0,
        fire_due-alone (suc (suc rounds)) fuel 0 timer ran st runs (omega arith)
            ∙ ap
                (λ k.
                  fire_due lua allowlist advance (suc (suc rounds)) (suc fuel) (alone k timer st'))
                (max_time-left (advance st.now) (later 0 timer.interval) past)
            ∙ again.1,
        again.2,
        again.3,
      )
