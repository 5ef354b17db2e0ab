-- ===== src/LuaThread/Allowlist.antt =====
-- src/tabs/luatab.cpp: a script reaches no RPC method outside the allowlist.
use bitcoin_tui.Base.{
  ℕ, zero, suc, true, Bool-cases, List, [], ◌∷◌, ◌++◌, Bytes, leb, Option, none, some, ◌⊎◌, inl,
  inr, ◌≡◌, refl, ◌∙◌, arith,
}
use bitcoin_tui.Json.Value.{Json}
use bitcoin_tui.LuaThread.Map.{find}
use bitcoin_tui.LuaThread.State.{
  LuaValue, Args, no_args, LuaTimer, RpcRequest, RpcResponse, PendingCoroutine, Call, wake_call,
  set_interval, Resumed, yielded, returned, raised, Lua, LuaThread, Driven, waiting, finished,
  failed, stopped, wake, or_same, add_timer, read_clock, apply_calls,
}
use bitcoin_tui.LuaThread.{
  on_request, on_yield, on_resumed, drive, args_of, settle, resume_pending, go_on, collect,
  collect_responses, after_fire, fire, fire_due, turn, serve_front, serve_request,
}
use bitcoin_tui.LuaThread.Requests.{contains, Yield, request, unknown, read_yield}

-- Every request is for a method of the allowlist.
abbrev pub AllAllowed : {D : Type 0} → List Bytes → List (RpcRequest D) → Type 0
AllAllowed allowlist [] = Unit
AllAllowed allowlist (req ∷ reqs) =
    (contains req.method allowlist ≡ true) × AllAllowed allowlist reqs

AllAllowed-push :
    {D : Type 0} (allowlist : List Bytes) (reqs : List (RpcRequest D)) (req : RpcRequest D)
    → AllAllowed allowlist reqs
    → contains req.method allowlist ≡ true
    → AllAllowed allowlist (reqs ++ req ∷ [])
AllAllowed-push allowlist [] req h k = (k, tt)
AllAllowed-push allowlist (r ∷ reqs) req h k = (h.0, AllAllowed-push allowlist reqs req h.1 k)

module _ {D C Co W : Type 0} where
  wake-requests :
      (id : ℕ) (st : LuaThread D C Co W) → (or_same (wake id st) st).requests ≡ st.requests
  unfolding wake or_same
  wake-requests id st = ground arith

  apply_calls-requests :
      (advance : ℕ → ℕ) (calls : List (Call C)) (st : LuaThread D C Co W)
      → (apply_calls advance calls st).requests ≡ st.requests
  unfolding apply_calls add_timer
  apply_calls-requests advance [] st = refl
  apply_calls-requests advance (wake_call id ∷ calls) st =
      apply_calls-requests advance calls (or_same (wake id st) st) ∙ wake-requests id st
  apply_calls-requests advance (set_interval interval fn source_id ∷ calls) st =
      apply_calls-requests advance calls (add_timer advance interval fn source_id st)

module _ {D C Co W : Type 0} (lua : Lua D C Co W) (allowlist : List Bytes) (advance : ℕ → ℕ) where
  abbrev State : Type 0
  State = LuaThread D C Co W

  abbrev Asks : State → Type 0
  Asks st = AllAllowed allowlist st.requests

  on_request-Asks :
      (again : Args D → State → Driven × Co × State) (co : Co) (method : Option Bytes)
      (wallet : Option (Option Bytes)) (params : LuaValue D) (st : State)
      → ((args : Args D) (s : State) → Asks s → Asks (again args s).2)
      → Asks st
      → Asks (on_request lua allowlist advance again co method wallet params st).2
  unfolding on_request
  on_request-Asks again co none wallet params st k h = h
  on_request-Asks again co (some method) none params st k h = h
  on_request-Asks again co (some method) (some wallet) params st k h =
      elim (Bool-cases (contains method allowlist)) [
        | inl e ↦ rw e (AllAllowed-push allowlist st.requests _ h e)
        | inr e ↦ rw e (k _ st h)
      ]

  on_yield-Asks :
      (again : Args D → State → Driven × Co × State) (co : Co) (timer : LuaTimer C) (y : Yield D)
      (st : State)
      → ((args : Args D) (s : State) → Asks s → Asks (again args s).2)
      → Asks st
      → Asks (on_yield lua allowlist advance again co timer y st).2
  unfolding on_yield
  on_yield-Asks again co timer (request wallet method params) st k h =
      on_request-Asks again co _ _ params st k h
  on_yield-Asks again co timer unknown st k h = h

  on_resumed-Asks :
      (again : Args D → State → Driven × Co × State) (co : Co) (timer : LuaTimer C) (r : Resumed D)
      (st : State)
      → ((args : Args D) (s : State) → Asks s → Asks (again args s).2)
      → Asks st
      → Asks (on_resumed lua allowlist advance again co timer r st).2
  unfolding on_resumed
  on_resumed-Asks again co timer (yielded vs) st k h =
      on_yield-Asks again co timer (read_yield vs) st k h
  on_resumed-Asks again co timer returned st k h = h
  on_resumed-Asks again co timer (raised msg) st k h = h

  drive-Asks :
      (f : ℕ) (co : Co) (timer : LuaTimer C) (args : Args D) (st : State)
      → Asks st
      → Asks (drive lua allowlist advance f co timer args st).2
  unfolding drive
  drive-Asks zero co timer args st h = h
  drive-Asks (suc f) co timer args st h =
      let r = lua.resume co args st.world in
      let st' = apply_calls advance r.1 (record st { world = r.3 }) in
      on_resumed-Asks (λ args' s. drive lua allowlist advance f r.2 timer args' s) r.2 timer r.0 st'
        (λ args' s k. drive-Asks f r.2 timer args' s k)
        (rw (apply_calls-requests advance r.1 (record st { world = r.3 })) h)

  settle-Asks :
      (id : ℕ) (pc : Option (PendingCoroutine C Co)) (r : Driven × Co × State)
      → Asks r.2
      → Asks (settle lua allowlist advance id pc r).1
  unfolding settle
  settle-Asks id none (d, co, st) h = h
  settle-Asks id (some pc) (waiting new_id, co, st) h = h
  settle-Asks id (some pc) (finished, co, st) h = elim (Bool-cases pc.wake_pending) [
    | inl e ↦ rw e h
    | inr e ↦ rw e h
  ]
  settle-Asks id (some pc) (failed, co, st) h = h
  settle-Asks id (some pc) (stopped, co, st) h = h

  resume_pending-Asks :
      (fuel : ℕ) (resp : RpcResponse D) (pc : Option (PendingCoroutine C Co)) (st : State)
      → Asks st
      → Asks (resume_pending lua allowlist advance fuel resp pc st).1
  unfolding resume_pending
  resume_pending-Asks fuel resp none st h = h
  resume_pending-Asks fuel resp (some pc) st h =
      let driven =
        drive lua allowlist advance fuel pc.co pc.timer (args_of lua allowlist advance resp) st in
      settle-Asks resp.id (find resp.id driven.2.pending) driven
        (drive-Asks fuel pc.co pc.timer (args_of lua allowlist advance resp) st h)

  go_on-Asks :
      (again : State → Driven × State) (r : Driven × State)
      → ((s : State) → Asks s → Asks (again s).1)
      → Asks r.1
      → Asks (go_on lua allowlist advance again r).1
  unfolding go_on
  go_on-Asks again (finished, st) k h = k st h
  go_on-Asks again (waiting id, st) k h = h
  go_on-Asks again (failed, st) k h = h
  go_on-Asks again (stopped, st) k h = h

  collect-Asks :
      (fuel : ℕ) (resps : List (RpcResponse D)) (st : State)
      → Asks st
      → Asks (collect lua allowlist advance fuel resps st).1
  unfolding collect
  collect-Asks fuel [] st h = h
  collect-Asks fuel (resp ∷ resps) st h =
      go_on-Asks (λ s. collect lua allowlist advance fuel resps s) _
        (λ s k. collect-Asks fuel resps s k)
        (resume_pending-Asks fuel resp (find resp.id st.pending) st h)

  after_fire-Asks :
      (again : State → Driven × State) (key : ℕ) (timer : LuaTimer C) (r : Driven × Co × State)
      → ((s : State) → Asks s → Asks (again s).1)
      → Asks r.2
      → Asks (after_fire lua allowlist advance again key timer r).1
  unfolding after_fire
  after_fire-Asks again key timer (waiting id, co, st) k h = k _ h
  after_fire-Asks again key timer (finished, co, st) k h = k _ h
  after_fire-Asks again key timer (failed, co, st) k h = h
  after_fire-Asks again key timer (stopped, co, st) k h = h

  fire-Asks :
      (again : State → Driven × State) (fuel : ℕ) (timers : List (ℕ × LuaTimer C)) (st : State)
      → ((s : State) → Asks s → Asks (again s).1)
      → Asks st
      → Asks (fire lua allowlist advance again fuel timers st).1
  unfolding fire
  fire-Asks again fuel [] st k h = h
  fire-Asks again fuel ((key, timer) ∷ timers) st k h = elim (Bool-cases (leb key st.now)) [
    | inl e ↦ rw e (
        after_fire-Asks again key timer _ k
          (drive-Asks fuel _ timer no_args (record st { timers = timers; world = _ }) h))
    | inr e ↦ rw e h
  ]

  fire_due-Asks :
      (rounds fuel : ℕ) (st : State)
      → Asks st
      → Asks (fire_due lua allowlist advance rounds fuel st).1
  unfolding fire_due
  fire_due-Asks zero fuel st h = h
  fire_due-Asks (suc rounds) fuel st h =
      fire-Asks (λ s. fire_due lua allowlist advance rounds fuel s) fuel st.timers st
        (λ s k. fire_due-Asks rounds fuel s k) h

  turn-Asks :
      (rounds fuel : ℕ) (st : State) → Asks st → Asks (turn lua allowlist advance rounds fuel st).1
  unfolding turn collect_responses
  turn-Asks rounds fuel st h =
      go_on-Asks (λ s. fire_due lua allowlist advance rounds fuel (read_clock advance s)) _
        (λ s k. fire_due-Asks rounds fuel (read_clock advance s) k)
        (collect-Asks fuel st.responses (record st { responses = [] }) h)

  -- What happens to the thread: a round of its loop, the calls of a callback that is no coroutine,
  -- and the service of a request by the other thread.
  pub data Step : State → State → Type 0 where
    turns : (rounds fuel : ℕ) (st : State) → Step st (turn lua allowlist advance rounds fuel st).1
    calls_back : (calls : List (Call C)) (st : State) → Step st (apply_calls advance calls st)
    serves :
        (ask : Bytes → Json D → Option Bytes → Bytes ⊎ Json D) (st : State)
        → Step st (serve_request lua allowlist advance ask st)

  pub data Reaches (start : State) : State → Type 0 where
    here : Reaches start start
    next : {st st' : State} → Reaches start st → Step st st' → Reaches start st'

  serve_front-Asks :
      (ask : Bytes → Json D → Option Bytes → Bytes ⊎ Json D) (reqs : List (RpcRequest D))
      (st : State)
      → AllAllowed allowlist reqs
      → Asks st
      → Asks (serve_front lua allowlist advance ask reqs st)
  unfolding serve_front
  serve_front-Asks ask [] st k h = h
  serve_front-Asks ask (req ∷ reqs) st k h = k.1

  Step-Asks : {st st' : State} → Step st st' → Asks st → Asks st'
  Step-Asks (turns rounds fuel st) h = turn-Asks rounds fuel st h
  Step-Asks (calls_back calls st) h = rw (apply_calls-requests advance calls st) h
  Step-Asks (serves ask st) h = unfold serve_request in serve_front-Asks ask st.requests st h h

  -- Whatever a script yields and however often, and however the rounds of the loop, the callbacks and
  -- the service of requests interleave, every request that ever waits for the node is for a method of
  -- the allowlist: from a thread with no request on.
  pub Reaches-AllAllowed :
      {start st : State} → start.requests ≡ [] → Reaches start st → AllAllowed allowlist st.requests
  Reaches-AllAllowed e here = rw e tt
  Reaches-AllAllowed e (next r step) = Step-Asks step (Reaches-AllAllowed e r)
