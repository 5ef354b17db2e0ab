-- ===== src/LuaThread.antt =====
-- src/tabs/luatab.cpp: the thread of a Lua tab, its coroutines and the requests that they make.
pub mod Map
pub mod State
pub mod Requests
pub mod Wake
pub mod Firing
pub mod Allowlist
mod Tests
use bitcoin_tui.Base.{
  ℕ, zero, suc, false, List, [], ◌∷◌, ◌++◌, Bytes, codes, leb, ◌==◌, if◌then◌else◌, Option, none,
  some, ◌⊎◌, inl, inr, to_string,
}
use bitcoin_tui.State.{empty}
use bitcoin_tui.Json.Value.{Json, array, null}
use bitcoin_tui.LuaThread.Map.{insert, find, erase}
use bitcoin_tui.LuaThread.State.{
  LuaValue, integer, number, text, Args, no_args, value_and_nil, nil_and_error, LuaTimer,
  RpcRequest, RpcResponse, PendingCoroutine, Resumed, yielded, returned, raised, Lua, LuaThread,
  Driven, waiting, finished, failed, stopped, later, max_time, read_clock, apply_calls,
}
use bitcoin_tui.LuaThread.Requests.{
  contains, c_string, extract_rpc_params, Yield, read_yield, elements_of, request, unknown,
}

module _ {D C Co W : Type 0} (lua : Lua D C Co W) (allowlist : List Bytes) (advance : ℕ → ℕ) where
  abbrev State : Type 0
  State = LuaThread D C Co W

  unfoldable pub report_callback_error : ℕ → Bytes → Bytes → LuaThread D C Co W → LuaThread D C Co W
  report_callback_error id source_id msg st = record st {
    callback_errors = λ (i : ℕ). if i == id then some (source_id, msg) else st.callback_errors i;
  }

  unfoldable pub clear_callback_error : ℕ → LuaThread D C Co W → LuaThread D C Co W
  clear_callback_error id st = record st {
    callback_errors = λ (i : ℕ). if i == id then none else st.callback_errors i;
  }

  -- lua_tostring; `none` is the null pointer, of which no std::string can be made.
  to_text : LuaValue D → Option Bytes
  to_text (text s) = some (c_string s)
  to_text (integer i) = some (to_string i)
  to_text (number d) = some (lua.number_text d)
  to_text _ = none

  wallet_text : Option (LuaValue D) → Option (Option Bytes)
  unfolding to_text
  wallet_text none = some none
  wallet_text (some v) = elim (to_text v) [ none ↦ none | some s ↦ some (some s) ]

  unfoldable pub submit_rpc : Bytes → Json D → Option Bytes → State → Driven × State
  submit_rpc method params wallet st =
      let id = suc st.next_rpc_id in
      let req : RpcRequest D = record {
        id = id;
        method = method;
        params = params;
        wallet = wallet;
      } in
      (waiting id, record st { next_rpc_id = id; requests = st.requests ++ req ∷ [] })

  -- `again` resumes the coroutine with the error of a denial.
  pub on_request :
      (Args D → State → Driven × Co × State)
      → Co
      → Option Bytes
      → Option (Option Bytes)
      → LuaValue D
      → State
      → Driven × Co × State
  unfolding submit_rpc extract_rpc_params elements_of
  on_request again co none wallet params st = (failed, co, st)
  on_request again co (some method) none params st = (failed, co, st)
  on_request again co (some method) (some wallet) params st =
      if contains method allowlist
      then (let sent =
            submit_rpc method (array (extract_rpc_params (elements_of params))) wallet st in
          (sent.0, co, sent.1))
      else again (nil_and_error (codes "RPC method not allowed: " ++ method)) st

  pub on_yield :
      (Args D → State → Driven × Co × State)
      → Co
      → LuaTimer C
      → Yield D
      → State
      → Driven × Co × State
  unfolding on_request to_text wallet_text clear_callback_error
  on_yield again co timer (request wallet method params) st =
      on_request again co (to_text method) (wallet_text wallet) params st
  on_yield again co timer unknown st = (finished, co, clear_callback_error timer.id st)

  pub on_resumed :
      (Args D → State → Driven × Co × State)
      → Co
      → LuaTimer C
      → Resumed D
      → State
      → Driven × Co × State
  unfolding on_yield read_yield report_callback_error clear_callback_error
  on_resumed again co timer (yielded vs) st = on_yield again co timer (read_yield vs) st
  on_resumed again co timer returned st = (finished, co, clear_callback_error timer.id st)
  on_resumed again co timer (raised msg) st =
      (finished, co, report_callback_error timer.id timer.source_id msg st)

  -- On fuel: a coroutine may go on asking for what is denied.
  unfoldable pub drive : ℕ → Co → LuaTimer C → Args D → State → Driven × Co × State
  unfolding on_resumed
  drive zero co timer args st = (stopped, co, st)
  drive (suc f) co timer args st =
      let (r, calls, co', w) = lua.resume co args st.world in
      on_resumed (λ args' st'. drive f co' timer args' st') co' timer r
        (apply_calls advance calls (record st { world = w }))

  pub args_of : RpcResponse D → Args D
  args_of resp = if empty resp.error then value_and_nil resp.result else nil_and_error resp.error

  -- After a coroutine that waited has run: it waits again, under its new number, or its timer is
  -- set again, at once if it has been woken.
  pub settle : ℕ → Option (PendingCoroutine C Co) → Driven × Co × State → Driven × State
  settle id none (d, co, st) = (d, st)
  settle id (some pc) (waiting new_id, co, st) = (
    finished,
    record st { pending = insert new_id (record pc { co = co }) (erase id st.pending) },
  )
  settle id (some pc) (finished, co, st) =
      let read = if pc.wake_pending then st else read_clock advance st in
      let next = if pc.wake_pending then 0 else later read.now pc.timer.interval in
      (
        finished,
        record read { timers = insert next pc.timer st.timers; pending = erase id st.pending },
      )
  settle id (some pc) (d, co, st) = (d, st)

  pub resume_pending : ℕ → RpcResponse D → Option (PendingCoroutine C Co) → State → Driven × State
  unfolding drive args_of settle
  resume_pending fuel resp none st = (finished, st)
  resume_pending fuel resp (some pc) st =
      let driven = drive fuel pc.co pc.timer (args_of resp) st in
      settle resp.id (find resp.id driven.2.pending) driven

  -- The rest of the responses, unless the thread is over.
  pub go_on : (State → Driven × State) → Driven × State → Driven × State
  go_on again (finished, st) = again st
  go_on again (d, st) = (d, st)

  pub collect : ℕ → List (RpcResponse D) → State → Driven × State
  unfolding resume_pending go_on
  collect fuel [] st = (finished, st)
  collect fuel (resp ∷ resps) st =
      go_on (λ st'. collect fuel resps st') (resume_pending fuel resp (find resp.id st.pending) st)

  unfoldable pub collect_responses : ℕ → State → Driven × State
  unfolding collect
  collect_responses fuel st = collect fuel st.responses (record st { responses = [] })

  -- After a timer has fired: its coroutine waits for a response, or it is set again.
  pub after_fire : (State → Driven × State) → ℕ → LuaTimer C → Driven × Co × State → Driven × State
  after_fire again key timer (waiting id, co, st) =
      let pc : PendingCoroutine C Co = record { co = co; timer = timer; wake_pending = false } in
      again (read_clock advance (record st { pending = insert id pc st.pending }))
  after_fire again key timer (finished, co, st) =
      let read = read_clock advance st in
      let next = max_time read.now (later key timer.interval) in
      again (record read { timers = insert next timer read.timers })
  after_fire again key timer (d, co, st) = (d, st)

  pub fire : (State → Driven × State) → ℕ → List (ℕ × LuaTimer C) → State → Driven × State
  unfolding after_fire drive
  fire again fuel [] st = (finished, st)
  fire again fuel ((key, timer) ∷ timers) st =
      let (co, w) = lua.new_thread timer.callback st.world in
      let next =
        after_fire again key timer
          (drive fuel co timer no_args (record st { timers = timers; world = w })) in
      if leb key st.now then next else (finished, st)

  -- `while (!timers.empty() && timers.begin()->first <= now)`, on fuel.
  unfoldable pub fire_due : ℕ → ℕ → State → Driven × State
  unfolding fire
  fire_due zero fuel st = (stopped, st)
  fire_due (suc f) fuel st = fire (λ st'. fire_due f fuel st') fuel st.timers st

  -- The responses, and then the timers that are due.
  unfoldable pub turn : ℕ → ℕ → State → Driven × State
  unfolding collect_responses go_on fire_due
  turn rounds fuel st =
      go_on (λ st'. fire_due rounds fuel (read_clock advance st')) (collect_responses fuel st)

  pub response_of : ℕ → Bytes ⊎ Json D → RpcResponse D
  response_of id (inl error) = record { id = id; result = null; error = error }
  response_of id (inr result) = record { id = id; result = result; error = [] }

  pub serve_front :
      (Bytes → Json D → Option Bytes → Bytes ⊎ Json D) → List (RpcRequest D) → State → State
  unfolding response_of
  serve_front ask [] st = st
  serve_front ask (req ∷ requests) st = record st {
    requests = requests;
    responses = st.responses ++ response_of req.id (ask req.method req.params req.wallet) ∷ [];
  }

  -- The thread that serves the requests: `ask` is what the call's `["result"]` gives, or the text of
  -- an exception.
  unfoldable pub serve_request : (Bytes → Json D → Option Bytes → Bytes ⊎ Json D) → State → State
  unfolding serve_front
  serve_request ask st = serve_front ask st.requests st
