-- ===== src/LuaThread/State.antt =====
-- src/tabs/luatab.cpp: the state of a Lua tab's thread, its timers, and the calls that set them.
use bitcoin_tui.Base.{
  ℕ, suc, ◌+◌, ◌-◌, Bool, true, List, [], ◌∷◌, Bytes, ltb, ◌==◌, if◌then◌else◌, Option, none, some,
  ℤ, pos_part, neg_part,
}
use bitcoin_tui.Json.Value.{Json}
use bitcoin_tui.LuaThread.Map.{insert, erase}

-- The values of Lua; a table is its elements from 1 to its length.
mutual
  pub data LuaValue (D : Type 0) : Type 0 where
    nil : LuaValue D
    boolean : Bool → LuaValue D
    integer : ℤ → LuaValue D
    number : D → LuaValue D
    text : Bytes → LuaValue D
    table : LuaValues D → LuaValue D
    other : LuaValue D

  pub data LuaValues (D : Type 0) : Type 0 where
    no_values : LuaValues D
    more : LuaValue D → LuaValues D → LuaValues D

-- The arguments of a resumption.
pub data Args (D : Type 0) : Type 0 where
  no_args : Args D
  value_and_nil : Json D → Args D
  nil_and_error : Bytes → Args D

pub record LuaTimer (C : Type 0) : Type 0 where
  pub id : ℕ
  pub interval : ℤ
  pub callback : C
  pub source_id : Bytes

pub record RpcRequest (D : Type 0) : Type 0 where
  pub id : ℕ
  pub method : Bytes
  pub params : Json D
  pub wallet : Option Bytes

-- `error` is empty for a result.
pub record RpcResponse (D : Type 0) : Type 0 where
  pub id : ℕ
  pub result : Json D
  pub error : Bytes

pub record PendingCoroutine (C Co : Type 0) : Type 0 where
  pub co : Co
  pub timer : LuaTimer C
  pub wake_pending : Bool

-- The calls of btcui_wake and btcui_set_interval, a timer handle as its number.
pub data Call (C : Type 0) : Type 0 where
  wake_call : ℕ → Call C
  set_interval : ℤ → C → Bytes → Call C

-- What lua_resume comes back with.
pub data Resumed (D : Type 0) : Type 0 where
  yielded : LuaValues D → Resumed D
  returned : Resumed D
  raised : Bytes → Resumed D

-- Lua itself: `C` are its functions, `Co` its coroutines and `W` the rest of its state. A coroutine
-- runs up to its next yield, and makes calls on the way; they take effect when it stops, and what it
-- does about a call that fails is left out.
pub record Lua (D C Co W : Type 0) : Type 0 where
  pub new_thread : C → W → Co × W
  pub resume : Co → Args D → W → Resumed D × List (Call C) × Co × W
  pub number_text : D → Bytes

-- The state of the thread and of its script. Time points are counted from TimePoint::min(); `now`
-- is the last reading of the clock.
pub record LuaThread (D C Co W : Type 0) : Type 0 where
  pub timers : List (ℕ × LuaTimer C)
  pub pending : List (ℕ × PendingCoroutine C Co)
  pub next_callback_id : ℕ
  pub requests : List (RpcRequest D)
  pub responses : List (RpcResponse D)
  pub next_rpc_id : ℕ
  pub callback_errors : ℕ → Option (Bytes × Bytes)
  pub now : ℕ
  pub world : W

-- How a call ends: with the number of a request that the coroutine waits for, with the coroutine
-- done, with an exception that ends the thread, or not within its fuel.
pub data Driven : Type 0 where
  waiting : ℕ → Driven
  finished failed stopped : Driven

-- time + interval
abbrev pub later : ℕ → ℤ → ℕ
later time interval = time + pos_part interval - neg_part interval

abbrev pub max_time : ℕ → ℕ → ℕ
max_time a b = if ltb a b then b else a

-- The key of the timer with this number.
unfoldable pub key_of : {C : Type 0} → ℕ → List (ℕ × LuaTimer C) → Option (ℕ × LuaTimer C)
key_of id [] = none
key_of id ((k, timer) ∷ m) =
    let rest = key_of id m in if timer.id == id then some (k, timer) else rest

-- Sets the flag of the first coroutine of the timer; `none` if there is none.
unfoldable pub set_wake :
    {C Co : Type 0}
    → ℕ
    → List (ℕ × PendingCoroutine C Co)
    → Option (List (ℕ × PendingCoroutine C Co))
set_wake id [] = none
set_wake id ((k, pc) ∷ m) =
    let rest = set_wake id m in
    if pc.timer.id == id
    then some ((k, record pc { wake_pending = true }) ∷ m)
    else elim rest [ none ↦ none | some m' ↦ some ((k, pc) ∷ m') ]

module _ {D C Co W : Type 0} where
  -- `none` is the std::runtime_error for an invalid handle.
  unfoldable pub wake : ℕ → LuaThread D C Co W → Option (LuaThread D C Co W)
  unfolding key_of set_wake
  wake id st = elim (key_of id st.timers) [
    | some (k, timer) ↦ some (record st { timers = insert 0 timer (erase k st.timers) })
    | none ↦ elim (set_wake id st.pending) [
      | some pending ↦ some (record st { pending = pending })
      | none ↦ none
    ]
  ]

  unfoldable pub or_same : Option (LuaThread D C Co W) → LuaThread D C Co W → LuaThread D C Co W
  or_same none st = st
  or_same (some st') st = st'

-- `advance` is the next reading of the clock.
module _ {D C Co W : Type 0} (advance : ℕ → ℕ) where
  -- Clock::now()
  abbrev pub read_clock : LuaThread D C Co W → LuaThread D C Co W
  read_clock st = record st { now = advance st.now }

  unfoldable pub add_timer : ℤ → C → Bytes → LuaThread D C Co W → LuaThread D C Co W
  add_timer interval fn source_id st =
      let id = suc st.next_callback_id in
      let timer : LuaTimer C = record {
        id = id;
        interval = interval;
        callback = fn;
        source_id = source_id;
      } in
      record (read_clock st) {
        next_callback_id = id;
        timers = insert (advance st.now) timer st.timers;
      }

  unfoldable pub apply_calls : List (Call C) → LuaThread D C Co W → LuaThread D C Co W
  unfolding or_same wake add_timer
  apply_calls [] st = st
  apply_calls (wake_call id ∷ calls) st = apply_calls calls (or_same (wake id st) st)
  apply_calls (set_interval interval fn source_id ∷ calls) st =
      apply_calls calls (add_timer interval fn source_id st)
