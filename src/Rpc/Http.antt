-- ===== src/Rpc/Http.antt =====
-- src/rpc_client.cpp: `http_post`. The socket calls of the operating system are parameters; what the
-- function does with their results is modelled, the handles that it opens and closes included.
pub mod Response
pub mod Exchange
use bitcoin_tui.Base.{
  ℕ, zero, suc, ◌+◌, ◌-◌, ◌*◌, ◌<◌, ◌≤◌, Bool, true, false, ◌||◌, ◌&&◌, not, List, [], ◌∷◌, ◌++◌,
  Bytes, codes, em_dash, ellipsis, ◌==◌, ltb, if◌then◌else◌, length, take, drop, Option, none, some,
  ℤ, pos, negsuc, to_string, stoll, Outcome, ok, throw, out_of_fuel, rpc_error, bind, catch_all,
}
use bitcoin_tui.Rpc.Base64.{base64_encode}

pub record RpcConfig : Type 0 where
  pub host : Bytes
  pub port : ℤ
  pub timeout_seconds : ℤ

pub record RpcAuth : Type 0 where
  pub user : Bytes
  pub password : Bytes

-- How the loop of recv() ends: the peer closes, the timeout runs out, or the call fails.
pub data RecvEnd : Type 0 where
  closed timed_out : RecvEnd
  failed : Bytes → RecvEnd

-- What the operating system answers to the calls of one request. An error comes with its text.
pub record Network : Type 0 where
  pub getaddrinfo_error : Option Bytes
  pub socket_error : Option Bytes
  pub connect_error : Option Bytes
  -- what the calls of send() return, one after the other, and the text of the error
  pub sends : List ℤ
  pub send_error : Bytes
  -- what the calls of recv() delivered, and how the last one ended
  pub received : Bytes
  pub recv_end : RecvEnd

-- The calls that acquire or release something.
pub data Call : Type 0 where
  resolve free_addrinfo open_socket close_socket : Call

abbrev crlf : Bytes
crlf = 0x0d ∷ 0x0a ∷ []

-- The request, with `Connection: close`.
unfoldable pub build_request : RpcConfig → RpcAuth → Bytes → Bytes → Bytes
unfolding base64_encode
build_request cfg auth endpoint body =
    codes "POST "
    ++ (endpoint
        ++ (codes " HTTP/1.1"
            ++ (crlf
                ++ (codes "Host: "
                    ++ (cfg.host
                        ++ (crlf
                            ++ (codes "Authorization: Basic "
                                ++ (base64_encode (auth.user ++ b':' ∷ auth.password)
                                    ++ (crlf
                                        ++ (codes "Content-Type: application/json"
                                            ++ (crlf
                                                ++ (codes "Content-Length: "
                                                    ++ (to_string (pos (length body))
                                                        ++ (crlf
                                                            ++ (codes "Connection: close"
                                                            ++ (crlf
                                                            ++ (crlf ++ body)))))))))))))))))

-- `while (sent_total < request.size())`: `rest` is what is not sent yet, `wire` what is.
unfoldable pub send_loop : Bytes → List ℤ → Bytes → Bytes → Outcome Bytes
send_loop what [] wire [] = ok wire
send_loop what [] wire (c ∷ rest) = out_of_fuel
send_loop what (n ∷ sends) wire [] = ok wire
send_loop what (pos (suc n) ∷ sends) wire (c ∷ rest) =
    send_loop what sends (wire ++ take (suc n) (c ∷ rest)) (drop (suc n) (c ∷ rest))
send_loop what (n ∷ sends) wire (c ∷ rest) = throw (rpc_error (codes "send() failed: " ++ what))

-- The text behind the first byte `b`, and behind the first blank line.
unfoldable pub behind_byte : ℕ → Bytes → Option Bytes
behind_byte b [] = none
behind_byte b (c ∷ s) = let more = behind_byte b s in if c == b then some s else more

unfoldable pub behind_blank_line : Bytes → Option Bytes
behind_blank_line (a ∷ b ∷ c ∷ d ∷ s) =
    let more = behind_blank_line (b ∷ c ∷ d ∷ s) in
    if a == 0x0d && b == 0x0a && c == 0x0d && d == 0x0a then some s else more
behind_blank_line _ = none

is_status : ℕ → ℤ → Bool
is_status n (pos k) = k == n
is_status n (negsuc k) = false

-- The end of `http_post`: what the status says of the body.
unfoldable pub by_status : ℤ → Bytes → Outcome Bytes
unfolding is_status
by_status status body =
    let detail = take 200 body in
    if is_status 401 status
    then throw (
        rpc_error (
          codes "Authentication failed (HTTP 401) "
          ++ (em_dash ++ codes " check your RPC credentials")))
    else if not (is_status 200 status) && not (is_status 500 status)
    then throw (
        rpc_error (
          codes "HTTP "
          ++ (to_string status
              ++ (codes ": " ++ (detail ++ (if length detail == 200 then ellipsis else []))))))
    else ok body

body_of : ℤ → Option Bytes → Outcome Bytes
unfolding by_status
body_of status none = throw (rpc_error (codes "No HTTP header separator found"))
body_of status (some body) = by_status status body

-- std::stoi on at most three bytes; whatever it throws is caught.
status_of : Option Bytes → Outcome ℤ
status_of none = throw (rpc_error (codes "Invalid HTTP response"))
status_of (some s) =
    catch_all (stoll (take 3 s)) (λ e. throw (rpc_error (codes "Invalid HTTP status line")))

unfoldable pub parse_response : Bytes → Outcome Bytes
unfolding behind_byte behind_blank_line status_of body_of
parse_response response =
    bind (status_of (behind_byte b' ' response))
      λ status. body_of status (behind_blank_line response)

-- What an empty response means, and what any other goes through.
unfoldable pub read_response : RpcConfig → RecvEnd → Bytes → Outcome Bytes
unfolding parse_response
read_response cfg timed_out [] = throw (
    rpc_error (
      codes "RPC timeout "
      ++ (em_dash
          ++ (codes " Bitcoin Core did not respond within "
              ++ (to_string cfg.timeout_seconds ++ codes "s")))))
read_response cfg (failed what) [] = throw (rpc_error (codes "recv() failed: " ++ what))
read_response cfg closed [] = throw (
    rpc_error (
      codes "Empty response from Bitcoin Core "
      ++ (em_dash ++ codes " connection closed before any data was sent")))
read_response cfg end (c ∷ s) = parse_response (c ∷ s)

-- A call before what follows.
abbrev with_call : Call → List Call × Outcome Bytes → List Call × Outcome Bytes
with_call c (calls, result) = (c ∷ calls, result)

-- From the end of the sending on: the socket is closed before an error of send() is thrown, and
-- otherwise behind the loop of recv(). Where the answers of send() do not reach, it is still open.
exchange : RpcConfig → Network → Outcome Bytes → List Call × Outcome Bytes
unfolding read_response
exchange cfg net (ok wire) =
    with_call close_socket ([], read_response cfg net.recv_end net.received)
exchange cfg net (throw e) = with_call close_socket ([], throw e)
exchange cfg net out_of_fuel = ([], out_of_fuel)

-- From connect() on.
on_connect :
    RpcConfig → RpcAuth → Network → Bytes → Bytes → Option Bytes → List Call × Outcome Bytes
unfolding exchange
on_connect cfg auth net endpoint body (some what) = with_call free_addrinfo (
    with_call close_socket (
      [],
      throw (
          rpc_error (
            codes "connect to "
            ++ (cfg.host ++ (b':' ∷ (to_string cfg.port ++ (codes " failed: " ++ what)))))),
    ))
on_connect cfg auth net endpoint body none = with_call free_addrinfo (
    exchange cfg net (send_loop net.send_error net.sends [] (build_request cfg auth endpoint body)))

-- From socket() on, which opens one unless it fails.
on_socket : RpcConfig → RpcAuth → Network → Bytes → Bytes → Option Bytes → List Call × Outcome Bytes
unfolding on_connect
on_socket cfg auth net endpoint body (some what) =
    with_call free_addrinfo ([], throw (rpc_error (codes "socket(): " ++ what)))
on_socket cfg auth net endpoint body none =
    with_call open_socket (on_connect cfg auth net endpoint body net.connect_error)

on_resolve :
    RpcConfig → RpcAuth → Network → Bytes → Bytes → Option Bytes → List Call × Outcome Bytes
unfolding on_socket
on_resolve cfg auth net endpoint body (some what) =
    ([], throw (rpc_error (codes "getaddrinfo: " ++ what)))
on_resolve cfg auth net endpoint body none =
    with_call resolve (on_socket cfg auth net endpoint body net.socket_error)

-- The calls that it makes, in order, and what it returns.
unfoldable pub http_post : RpcConfig → RpcAuth → Network → Bytes → Bytes → List Call × Outcome Bytes
unfolding on_resolve
http_post cfg auth net endpoint body = on_resolve cfg auth net endpoint body net.getaddrinfo_error
