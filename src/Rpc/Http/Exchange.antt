-- ===== src/Rpc/Http/Exchange.antt =====
-- src/rpc_client.cpp: `http_post` as a whole, over a network that carries it, and what it throws.
use bitcoin_tui.Base.{
  ℕ, zero, suc, ◌≤◌, ◌<◌, not, ◌&&◌, List, [], ◌∷◌, ◌++◌, Bytes, length, take, stoll, ℤ, pos,
  negsuc, to_decimal, Outcome, ok, throw, out_of_fuel, Throws, thrown, no_throw, stopped, Throws-if,
  Throws-bind, Throws-catch_all, Exception, rpc_error, ◌≡◌, refl, Option, none, some,
}
use bitcoin_tui.Rpc.Http.{
  RpcConfig, RpcAuth, Network, RecvEnd, closed, timed_out, failed, build_request, send_loop,
  by_status, parse_response, read_response, exchange, on_connect, on_socket, on_resolve, http_post,
  is_status, status_of, body_of, behind_byte, behind_blank_line,
}
use bitcoin_tui.Rpc.Http.Response.{
  AreSent, send_loop_lem, Without, AreLines, header, parse_response_lem,
}

-- A response as a server writes it.
abbrev pub response_text : Bytes → ℕ → Bytes → List Bytes → Bytes → Bytes
response_text version status reason ls body =
    version ++ b' ' ∷ (to_decimal status ++ (reason ++ header ls body))

-- The network carries one request of `size` bytes there and one response back.
pub record Answers (net : Network) (size : ℕ) (status : ℕ) (body : Bytes) : Type 0 where
  pub resolved : net.getaddrinfo_error ≡ none
  pub opened : net.socket_error ≡ none
  pub connected : net.connect_error ≡ none
  pub sent : AreSent net.sends
  pub enough : size ≤ length net.sends
  pub version : Bytes
  pub reason : Bytes
  pub ls : List Bytes
  pub no_space : Without b' ' version
  pub first_line : Without 0x0d (version ++ b' ' ∷ (to_decimal status ++ reason))
  pub three_digits : length (to_decimal status) ≡ 3
  pub small : status < 1000
  pub are_lines : AreLines ls
  pub received : net.received ≡ response_text version status reason ls body

read_response-any :
    (cfg : RpcConfig) (end : RecvEnd) (version s : Bytes)
    → read_response cfg end (version ++ b' ' ∷ s) ≡ parse_response (version ++ b' ' ∷ s)
unfolding read_response
read_response-any cfg closed [] s = refl
read_response-any cfg timed_out [] s = refl
read_response-any cfg (failed what) [] s = refl
read_response-any cfg closed (c ∷ v) s = refl
read_response-any cfg timed_out (c ∷ v) s = refl
read_response-any cfg (failed what) (c ∷ v) s = refl

pub http_post-Answers :
    (cfg : RpcConfig) (auth : RpcAuth) (net : Network) (endpoint body : Bytes) (status : ℕ)
    (reply : Bytes)
    → Answers net (length (build_request cfg auth endpoint body)) status reply
    → (http_post cfg auth net endpoint body).1 ≡ by_status (pos status) reply
unfolding http_post on_resolve on_socket on_connect exchange
http_post-Answers cfg auth net endpoint body status reply a =
    let sent =
      send_loop_lem net.send_error net.sends [] (build_request cfg auth endpoint body) a.sent
        a.enough in
    let parsed =
      parse_response_lem a.version a.reason status a.ls reply a.no_space a.first_line a.three_digits
        a.small a.are_lines in
    let read =
      read_response-any cfg net.recv_end a.version
        (to_decimal status ++ (a.reason ++ header a.ls reply)) in
    rw (a.resolved, a.opened, a.connected, sent, a.received, read) parsed

pub data IsRpcError : Exception → Type 0 where
  is_rpc_error : {what : Bytes} → IsRpcError (rpc_error what)

status_of-Throws : (o : Option Bytes) → Throws IsRpcError (status_of o)
unfolding status_of
status_of-Throws none = thrown is_rpc_error
status_of-Throws (some s) = Throws-catch_all (stoll (take 3 s)) _ (λ e. thrown is_rpc_error)

body_of-Throws : (n : ℤ) (o : Option Bytes) → Throws IsRpcError (body_of n o)
unfolding body_of by_status
body_of-Throws n none = thrown is_rpc_error
body_of-Throws n (some s) =
    Throws-if (is_status 401 n) (thrown is_rpc_error)
      (Throws-if (not (is_status 200 n) && not (is_status 500 n)) (thrown is_rpc_error) no_throw)

parse_response-Throws : (s : Bytes) → Throws IsRpcError (parse_response s)
unfolding parse_response
parse_response-Throws s =
    Throws-bind (status_of-Throws (behind_byte b' ' s))
      (λ n. body_of-Throws n (behind_blank_line s))

read_response-Throws :
    (cfg : RpcConfig) (end : RecvEnd) (s : Bytes) → Throws IsRpcError (read_response cfg end s)
unfolding read_response
read_response-Throws cfg closed [] = thrown is_rpc_error
read_response-Throws cfg timed_out [] = thrown is_rpc_error
read_response-Throws cfg (failed what) [] = thrown is_rpc_error
read_response-Throws cfg closed (c ∷ s) = parse_response-Throws (c ∷ s)
read_response-Throws cfg timed_out (c ∷ s) = parse_response-Throws (c ∷ s)
read_response-Throws cfg (failed what) (c ∷ s) = parse_response-Throws (c ∷ s)

send_loop-Throws :
    (what : Bytes) (sends : List ℤ) (wire rest : Bytes)
    → Throws IsRpcError (send_loop what sends wire rest)
unfolding send_loop
send_loop-Throws what [] wire [] = no_throw
send_loop-Throws what [] wire (c ∷ rest) = stopped
send_loop-Throws what (n ∷ sends) wire [] = no_throw
send_loop-Throws what (pos zero ∷ sends) wire (c ∷ rest) = thrown is_rpc_error
send_loop-Throws what (pos (suc n) ∷ sends) wire (c ∷ rest) = send_loop-Throws what sends _ _
send_loop-Throws what (negsuc n ∷ sends) wire (c ∷ rest) = thrown is_rpc_error

exchange-Throws :
    (cfg : RpcConfig) (net : Network) (r : Outcome Bytes)
    → Throws IsRpcError r
    → Throws IsRpcError (exchange cfg net r).1
unfolding exchange
exchange-Throws cfg net (ok wire) h = read_response-Throws cfg net.recv_end net.received
exchange-Throws cfg net (throw e) h = h
exchange-Throws cfg net out_of_fuel h = stopped

-- Whatever the network does, an exception that leaves `http_post` is an RpcError.
pub http_post-Throws :
    (cfg : RpcConfig) (auth : RpcAuth) (net : Network) (endpoint body : Bytes)
    → Throws IsRpcError (http_post cfg auth net endpoint body).1
unfolding http_post
http_post-Throws cfg auth net endpoint body = resolve_throws net.getaddrinfo_error
  where
    connect_throws :
        (e : Option Bytes) → Throws IsRpcError (on_connect cfg auth net endpoint body e).1
    connect_throws none = unfold on_connect in exchange-Throws cfg net _ (send_loop-Throws _ _ _ _)
    connect_throws (some what) = unfold on_connect in thrown is_rpc_error

    socket_throws :
        (e : Option Bytes) → Throws IsRpcError (on_socket cfg auth net endpoint body e).1
    socket_throws none = unfold on_socket in connect_throws net.connect_error
    socket_throws (some what) = unfold on_socket in thrown is_rpc_error

    resolve_throws :
        (e : Option Bytes) → Throws IsRpcError (on_resolve cfg auth net endpoint body e).1
    resolve_throws none = unfold on_resolve in socket_throws net.socket_error
    resolve_throws (some what) = unfold on_resolve in thrown is_rpc_error
