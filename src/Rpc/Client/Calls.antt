-- ===== src/Rpc/Client/Calls.antt =====
-- src/rpc_client.cpp: a call as a whole, from the method to the value or the exception.
use bitcoin_tui.Base.{
  ℕ, Bytes, length, pos, negsuc, ◌+ℤ◌, Outcome, ok, throw, out_of_fuel, Exception, json_exception,
  rpc_error, invalid_argument, out_of_range, Throws, thrown, no_throw, stopped, Throws-bind, ◌≡◌,
  refl, ◌⊎◌, inl, inr,
}
use bitcoin_tui.Json.Value.{Floats, Json}
use bitcoin_tui.Json.Parser.{parse}
use bitcoin_tui.Json.Dump.{dump}
use bitcoin_tui.Rpc.Http.{Network, build_request, by_status}
use bitcoin_tui.Rpc.Http.Exchange.{
  Answers, http_post-Answers, IsRpcError, is_rpc_error, http_post-Throws,
}
use bitcoin_tui.Rpc.Client.{
  RpcClient, request, on_parse_error, check_reply, read_reply, call_endpoint,
}
use bitcoin_tui.Rpc.Client.Reply.{
  Means, fine, with_message, other, check_reply-Means, read_reply-Means,
}

-- What may leave a call.
pub data LeavesCall : Exception → Type 0 where
  an_rpc_error : {what : Bytes} → LeavesCall (rpc_error what)
  no_conversion : LeavesCall invalid_argument
  no_room : LeavesCall out_of_range

module _ (fl : Floats) where
  open fl use {Double}

  -- The body that a client sends next.
  abbrev pub next_body : RpcClient → Bytes → Json Double → Bytes
  next_body client method params =
      dump fl (negsuc 0) (request (client.request_id +ℤ pos 1) method params)

  abbrev pub next_request : RpcClient → Bytes → Bytes → Json Double → Bytes
  next_request client endpoint method params =
      build_request client.config client.auth endpoint (next_body client method params)

  -- Over a network that carries the request there and a response back, whose body is any text that
  -- the parser reads as a value, a call yields what this value means as a reply, whether Bitcoin Core
  -- sends it with status 200 or, as for its own errors, with 500; and the number of the client's
  -- request has gone up by one.
  pub call_endpoint_lem :
      (client : RpcClient) (net : Network) (endpoint method : Bytes) (params : Json Double)
      (status : ℕ) (text : Bytes) (reply : Json Double)
      → parse fl text ≡ ok reply
      → (status ≡ 200) ⊎ (status ≡ 500)
      → Answers net (length (next_request client endpoint method params)) status text
      → Means fl reply (call_endpoint fl client net endpoint method params).2
        × ((call_endpoint fl client net endpoint method params).0.request_id
            ≡ client.request_id +ℤ pos 1)
  unfolding call_endpoint
  call_endpoint_lem client net endpoint method params status text reply h hs a =
      let post =
        http_post-Answers client.config client.auth net endpoint (next_body client method params)
          status text a in
      (rw (post, passes status text hs) (read_reply-Means fl text reply h), refl)
    where
      passes :
          (status : ℕ) (s : Bytes)
          → (status ≡ 200) ⊎ (status ≡ 500)
          → by_status (pos status) s ≡ ok s
      passes status s (inl e) = rw e (unfold by_status in refl)
      passes status s (inr e) = rw e (unfold by_status in refl)

  Means-Throws :
      (reply : Json Double) (r : Outcome (Json Double)) → Means fl reply r → Throws LeavesCall r
  Means-Throws reply _ (fine h) = no_throw
  Means-Throws reply _ (with_message msg h m) = thrown an_rpc_error
  Means-Throws reply _ (other tail h m) = thrown an_rpc_error

  on_parse_error-Throws : (r : Outcome (Json Double)) → Throws LeavesCall (on_parse_error r)
  unfolding on_parse_error
  on_parse_error-Throws (ok v) = no_throw
  on_parse_error-Throws (throw (json_exception what)) = thrown an_rpc_error
  on_parse_error-Throws (throw (rpc_error what)) = thrown an_rpc_error
  on_parse_error-Throws (throw invalid_argument) = thrown no_conversion
  on_parse_error-Throws (throw out_of_range) = thrown no_room
  on_parse_error-Throws out_of_fuel = stopped

  read_reply-Throws : (s : Bytes) → Throws LeavesCall (read_reply fl s)
  unfolding read_reply
  read_reply-Throws s =
      Throws-bind (on_parse_error-Throws (parse fl s))
        (λ v. Means-Throws v (check_reply fl v) (check_reply-Means fl v))

  -- Whatever the network does and the server sends, a call never lets a json::exception out: what
  -- leaves it is an RpcError, or one of the two exceptions of std::stoll and std::stod.
  pub call_endpoint-Throws :
      (client : RpcClient) (net : Network) (endpoint method : Bytes) (params : Json Double)
      → Throws LeavesCall (call_endpoint fl client net endpoint method params).2
  unfolding call_endpoint
  call_endpoint-Throws client net endpoint method params =
      Throws-bind
        (only_rpc_error (
          http_post-Throws client.config client.auth net endpoint (next_body client method params)))
        read_reply-Throws
    where
      only_rpc_error : {r : Outcome Bytes} → Throws IsRpcError r → Throws LeavesCall r
      only_rpc_error no_throw = no_throw
      only_rpc_error (thrown (is_rpc_error)) = thrown an_rpc_error
      only_rpc_error stopped = stopped
