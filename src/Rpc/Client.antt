-- ===== src/Rpc/Client.antt =====
-- src/rpc_client.cpp: `RpcClient`, whose calls send a request object and read the reply.
pub mod Reply
pub mod Calls
use bitcoin_tui.Base.{
  ℕ, suc, ◌+◌, Bool, true, false, ◌||◌, ◌&&◌, not, List, [], ◌++◌, Bytes, codes, if◌then◌else◌, ℤ,
  pos, negsuc, ◌+ℤ◌, to_string, Outcome, ok, throw, out_of_fuel, bind, Exception, json_exception,
  rpc_error,
}
use bitcoin_tui.Json.Value.{Floats, Json, Items, int, string, no_items, item}
use bitcoin_tui.Json.Parser.{parse}
use bitcoin_tui.Json.Dump.{dump}
use bitcoin_tui.Json.Access.{
  initializer_list, is_null, is_string, is_number_integer, is_number, get_string, get_int64, index,
  contains,
}
use bitcoin_tui.Rpc.Uri.{uri_encode}
use bitcoin_tui.Rpc.Http.{RpcConfig, RpcAuth, Network, Call, http_post}

-- The data of an RpcClient.
pub record RpcClient : Type 0 where
  pub config : RpcConfig
  pub auth : RpcAuth
  pub request_id : ℤ

-- `{"key", v}` in braces.
abbrev pub pair : {D : Type 0} → Bytes → Json D → Json D
pair key v = initializer_list (item (string key) (item v no_items))

unfoldable pub request : {D : Type 0} → ℤ → Bytes → Json D → Json D
unfolding initializer_list
request id method params = initializer_list (
    item (pair (codes "id") (int id))
      (item (pair (codes "method") (string method)) (item (pair (codes "params") params) no_items)))

-- `catch (const json::exception& e)`: no other exception is caught.
unfoldable pub on_parse_error {ℓ} : {A : Type ℓ} → Outcome A → Outcome A
on_parse_error (throw (json_exception what)) =
    throw (rpc_error (codes "JSON parse error: " ++ what))
on_parse_error r = r

module _ (fl : Floats) where
  open fl use {Double}

  -- The part of the message that shows the error's code.
  code_text : Json Double → Outcome Bytes
  code_text err =
      if contains (codes "code") err
        && (is_number_integer (index (codes "code") err) || is_number (index (codes "code") err))
      then bind (get_int64 fl (index (codes "code") err))
          (λ n. ok (codes " (code " ++ (to_string n ++ codes ")")))
      else ok []

  unfoldable pub error_message : Json Double → Outcome Bytes
  unfolding code_text
  error_message err =
      if contains (codes "message") err && is_string (index (codes "message") err)
      then get_string (index (codes "message") err)
      else bind (code_text err)
          (λ code. ok (codes "RPC error" ++ (code ++ (codes ": " ++ dump fl (negsuc 0) err))))

  -- From the parsed response on.
  unfoldable pub check_reply : Json Double → Outcome (Json Double)
  unfolding error_message
  check_reply reply =
      if contains (codes "error") reply && not (is_null (index (codes "error") reply))
      then bind (error_message (index (codes "error") reply)) (λ msg. throw (rpc_error msg))
      else ok reply

  -- From the response of `http_post` on.
  unfoldable pub read_reply : Bytes → Outcome (Json Double)
  unfolding check_reply
  read_reply response = bind (on_parse_error (parse fl response)) check_reply

  -- The private `call`: the client after it, the calls on handles, and what it returns.
  unfoldable pub call_endpoint :
      RpcClient
      → Network
      → Bytes
      → Bytes
      → Json Double
      → RpcClient × List Call × Outcome (Json Double)
  unfolding read_reply
  call_endpoint client net endpoint method params =
      let id = client.request_id +ℤ pos 1 in
      let body = dump fl (negsuc 0) (request id method params) in
      let (calls, response) = http_post client.config client.auth net endpoint body in
      (
        record { config = client.config; auth = client.auth; request_id = id },
        calls,
        bind response read_reply,
      )

  unfoldable pub call :
      RpcClient → Network → Bytes → Json Double → RpcClient × List Call × Outcome (Json Double)
  unfolding call_endpoint
  call client net method params = call_endpoint client net (codes "/") method params

  unfoldable pub call_wallet :
      RpcClient
      → Network
      → Bytes
      → Bytes
      → Json Double
      → RpcClient × List Call × Outcome (Json Double)
  unfolding call_endpoint
  call_wallet client net wallet method params =
      call_endpoint client net (codes "/wallet/" ++ uri_encode wallet) method params
