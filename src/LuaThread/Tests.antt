-- ===== src/LuaThread/Tests.antt =====
-- Runs of the thread of a Lua tab.
use bitcoin_tui.Base.{
  ℕ, suc, false, List, [], ◌∷◌, codes, compare_bytes, ◌==◌, if◌then◌else◌, none, some, pos, ◌≡◌,
  refl, arith,
}
use bitcoin_tui.LuaThread.Map.{insert}
use bitcoin_tui.LuaThread.State.{
  text, table, no_values, more, LuaTimer, Lua, LuaThread, yielded, returned, stopped, finished,
  later, key_of, set_wake, wake, apply_calls,
}
use bitcoin_tui.LuaThread.{fire_due, turn, drive, collect_responses}
use bitcoin_tui.LuaThread.Requests.{contains, make_allowlist, read_yield, extract_rpc_params}
use bitcoin_tui.LuaThread.Wake.{wake-wake}
use bitcoin_tui.LuaThread.Firing.{alone, fire_due-endless, fire_due-woken}
use bitcoin_tui.LuaThread.Allowlist.{AllAllowed, turns, here, next, Reaches-AllAllowed}

-- Functions that count how often they are called.
abbrev counting : Lua ℕ ℕ ℕ ℕ
counting = record {
  new_thread = λ c w. (c, w);
  resume = λ co args w. (returned, [], co, suc w);
  number_text = λ d. [];
}

-- Functions that ask for a method that is allowed and, in a coroutine of another number, for one
-- that is not.
abbrev asking : Lua ℕ ℕ ℕ ℕ
asking = record {
  new_thread = λ c w. (c, w);
  resume = λ co args w. (
    yielded (
        more (text (codes "rpc")) (
          more (text (if co == 0 then codes "uptime" else codes "stop"))
            (more (table no_values) no_values))),
    [],
    0,
    w,
  );
  number_text = λ d. [];
}

abbrev timer_of : ℕ → ℕ → LuaTimer ℕ
timer_of id interval = record { id = id; interval = pos interval; callback = id; source_id = [] }

abbrev thread : List (ℕ × LuaTimer ℕ) → LuaThread ℕ ℕ ℕ ℕ
thread timers = record {
  timers = timers;
  pending = [];
  next_callback_id = 2;
  requests = [];
  responses = [];
  next_rpc_id = 0;
  callback_errors = λ i. none;
  now = 100;
  world = 0;
}

abbrev two : LuaThread ℕ ℕ ℕ ℕ
two = thread ((150, timer_of 1 60) ∷ (160, timer_of 2 60) ∷ [])

not_allowed : contains (codes "sendtoaddress") (make_allowlist []) ≡ false
unfolding compare_bytes
not_allowed = refl

-- The coroutine that is denied goes on, and then waits for what is allowed.
asked :
    (turn asking (make_allowlist []) suc 2 2 (thread ((50, timer_of 1 60) ∷ []))).1.next_rpc_id ≡ 1
unfolding turn collect_responses fire_due drive read_yield extract_rpc_params apply_calls
    compare_bytes insert
asked = refl

wake-wake_example :
    (once twice : LuaThread ℕ ℕ ℕ ℕ) × (wake 2 two ≡ some once)
    × (wake 1 once ≡ some twice)
    × (key_of 2 twice.timers ≡ some (0, timer_of 2 60))
    × (wake 1 twice ≡ none)
unfolding key_of set_wake
wake-wake_example =
    wake-wake 2 1 160 150 (timer_of 2 60) (timer_of 1 60) two (omega arith) (refl, (refl, tt)) refl
      refl (ground arith) refl

fire_due-endless_example :
    (fire_due counting [] suc 1000 9 (alone 50 (timer_of 1 0) (thread []))).0 ≡ stopped
fire_due-endless_example =
    fire_due-endless counting [] suc 1000 8 50 (timer_of 1 0) suc (thread []) (λ w. (1, refl))
      (omega arith) (λ n. omega arith) (omega arith)

fire_due-woken_example :
    (end : LuaThread ℕ ℕ ℕ ℕ) × (fire_due counting [] suc 4 1 (alone 0 (timer_of 1 60) (thread []))
      ≡ (finished, end))
    × (end.timers ≡ (later 101 (pos 60), timer_of 1 60) ∷ [])
    × (end.world ≡ 2)
fire_due-woken_example =
    fire_due-woken counting [] suc 1 0 (timer_of 1 60) suc (thread []) (λ w. (1, refl))
      (omega arith) (omega arith)

Reaches-AllAllowed_example :
    AllAllowed
      (make_allowlist [])
      (turn asking (make_allowlist []) suc 2 2 (thread ((50, timer_of 1 60) ∷ []))).1.requests
Reaches-AllAllowed_example =
    Reaches-AllAllowed asking (make_allowlist []) suc {start = thread ((50, timer_of 1 60) ∷ [])}
      refl (next here (turns 2 2 (thread ((50, timer_of 1 60) ∷ []))))
