-- ===== src/Rpc/Http/Response.antt =====
-- src/rpc_client.cpp: what `http_post` makes of responses, and what it does with its handles.
use bitcoin_tui.Base.{
  ℕ, zero, suc, ◌≤◌, ◌<◌, Bool, true, false, List, [], ◌∷◌, ◌++◌, append_assoc, append-nil, Bytes,
  ◌==◌, length, length-drop, take, drop, take-append-drop, Option, none, some, ℤ, pos, negsuc,
  to_decimal, to_string, stoll-to_string, Outcome, ok, throw, out_of_fuel, ◌≡◌, ◌≢◌, refl, ◌∙◌,
  arith, ltb_ℤ,
}
use bitcoin_tui.Rpc.Http.{
  exchange, on_connect, on_socket, on_resolve, build_request, status_of, RpcConfig, RpcAuth,
  Network, Call, resolve, free_addrinfo, open_socket, close_socket, send_loop, behind_byte,
  behind_blank_line, by_status, parse_response, http_post,
}

-- Which handles are held: the list of getaddrinfo(), then the socket.
pub data Handles : Type 0 where
  held : Bool → Bool → Handles

-- A call on the handles; `none` where it acquires twice or releases what is not held.
step : Call → Handles → Option Handles
step resolve (held false s) = some (held true s)
step free_addrinfo (held true s) = some (held false s)
step open_socket (held true false) = some (held true true)
step close_socket (held a true) = some (held a false)
step _ h = none

-- The calls one after the other.
pub replay : List Call → Handles → Option Handles
replay [] h = some h
replay (c ∷ calls) h = elim (step c h) [ none ↦ none | some h' ↦ replay calls h' ]

-- Where there is an answer for each byte, the loop ends.
send_loop-ends :
    (what : Bytes) (sends : List ℤ) (wire rest : Bytes)
    → length rest ≤ length sends
    → send_loop what sends wire rest ≢ out_of_fuel
unfolding send_loop
send_loop-ends what [] wire [] h e = cc
send_loop-ends what [] wire (c ∷ rest) h e = absurd (omega arith)
send_loop-ends what (n ∷ sends) wire [] h e = cc
send_loop-ends what (pos zero ∷ sends) wire (c ∷ rest) h e = cc
send_loop-ends what (negsuc n ∷ sends) wire (c ∷ rest) h e = cc
send_loop-ends what (pos (suc n) ∷ sends) wire (c ∷ rest) h e =
    send_loop-ends what sends (wire ++ take (suc n) (c ∷ rest)) (drop n rest)
      (omega (arith, length-drop n rest)) e

replay-exchange :
    (cfg : RpcConfig) (net : Network) (r : Outcome Bytes)
    → r ≢ out_of_fuel
    → replay (exchange cfg net r).0 (held false true) ≡ some (held false false)
unfolding exchange replay step
replay-exchange cfg net (ok wire) h = refl
replay-exchange cfg net (throw e) h = refl
replay-exchange cfg net out_of_fuel h = absurd (h refl)

module _ (cfg : RpcConfig) (auth : RpcAuth) (net : Network) (endpoint body : Bytes)
    (enough : length (build_request cfg auth endpoint body) ≤ length net.sends) where
  replay-connect :
      (e : Option Bytes)
      → replay (on_connect cfg auth net endpoint body e).0 (held true true)
        ≡ some (held false false)
  unfolding on_connect replay step
  replay-connect none = replay-exchange cfg net _ (send_loop-ends _ net.sends [] _ enough)
  replay-connect (some what) = refl

  replay-socket :
      (e : Option Bytes)
      → replay (on_socket cfg auth net endpoint body e).0 (held true false)
        ≡ some (held false false)
  unfolding on_socket replay step
  replay-socket none = replay-connect net.connect_error
  replay-socket (some what) = refl

  replay-resolve :
      (e : Option Bytes)
      → replay (on_resolve cfg auth net endpoint body e).0 (held false false)
        ≡ some (held false false)
  unfolding on_resolve replay step
  replay-resolve none = replay-socket net.socket_error
  replay-resolve (some what) = refl

  -- Whatever the calls of the operating system answer, each handle that `http_post` acquires is
  -- released exactly once, and nothing is released that is not held: played from no handles held, its
  -- calls lead to no handles held, on the paths of the errors of socket(), connect(), send() and
  -- recv() too. The model has an answer of send() for each byte of the request, as many as the loop
  -- can need.
  pub http_post-releases :
      replay (http_post cfg auth net endpoint body).0 (held false false) ≡ some (held false false)
  unfolding http_post
  http_post-releases = replay-resolve net.getaddrinfo_error

-- Every call of send() takes at least one byte.
abbrev pub AreSent : List ℤ → Type 0
AreSent [] = Unit
AreSent (n ∷ sends) = (ltb_ℤ (pos 0) n ≡ true) × AreSent sends

-- As long as send() takes at least one byte at a time, the loop ends within as many calls as there
-- are bytes, and what it has then put on the wire is the whole of what there was to send, in order,
-- however the calls divide it.
pub send_loop_lem :
    (what : Bytes) (sends : List ℤ) (wire rest : Bytes)
    → AreSent sends
    → length rest ≤ length sends
    → send_loop what sends wire rest ≡ ok (wire ++ rest)
unfolding send_loop
send_loop_lem what [] wire [] h enough = rw append-nil
send_loop_lem what [] wire (c ∷ rest) h enough = absurd (omega arith)
send_loop_lem what (n ∷ sends) wire [] h enough = rw append-nil
send_loop_lem what (pos zero ∷ sends) wire (c ∷ rest) h enough = ground arith
send_loop_lem what (negsuc n ∷ sends) wire (c ∷ rest) h enough = ground arith
send_loop_lem what (pos (suc n) ∷ sends) wire (c ∷ rest) h enough =
    let fewer : length (drop n rest) ≤ length sends = omega (arith, length-drop n rest) in
    rw (
      send_loop_lem what sends (wire ++ c ∷ take n rest) (drop n rest) h.1 fewer,
      append_assoc wire (c ∷ take n rest) (drop n rest),
      take-append-drop n rest,
    )

-- A text without the byte `b`.
abbrev pub Without : ℕ → Bytes → Type 0
Without b [] = Unit
Without b (c ∷ s) = ((c == b) ≡ false) × Without b s

behind_byte-first : (b : ℕ) (s t : Bytes) → Without b s → behind_byte b (s ++ b ∷ t) ≡ some t
unfolding behind_byte
behind_byte-first b [] t h = ground arith
behind_byte-first b (c ∷ s) t h = rw (h.0, behind_byte-first b s t h.1)

behind_blank_line-other :
    (c : ℕ) (s : Bytes) → (c == 0x0d) ≡ false → behind_blank_line (c ∷ s) ≡ behind_blank_line s
unfolding behind_blank_line
behind_blank_line-other c [] h = refl
behind_blank_line-other c (x ∷ []) h = refl
behind_blank_line-other c (x ∷ y ∷ []) h = refl
behind_blank_line-other c (x ∷ y ∷ z ∷ s) h = rw h

behind_blank_line-line :
    (l s : Bytes) → Without 0x0d l → behind_blank_line (l ++ s) ≡ behind_blank_line s
behind_blank_line-line [] s h = refl
behind_blank_line-line (c ∷ l) s h =
    behind_blank_line-other c (l ++ s) h.0 ∙ behind_blank_line-line l s h.1

-- The end of a line that another line follows.
behind_blank_line-end :
    (c : ℕ) (s : Bytes)
    → (c == 0x0d) ≡ false
    → behind_blank_line (0x0d ∷ 0x0a ∷ c ∷ s) ≡ behind_blank_line (c ∷ s)
unfolding behind_blank_line
behind_blank_line-end c [] h = refl
behind_blank_line-end c (x ∷ []) h = rw h
behind_blank_line-end c (x ∷ y ∷ s) h = rw h

-- A header line is not empty and holds no carriage return.
abbrev pub IsLine : Bytes → Type 0
IsLine [] = ⊥
IsLine (c ∷ s) = Without 0x0d (c ∷ s)

abbrev pub AreLines : List Bytes → Type 0
AreLines [] = Unit
AreLines (l ∷ ls) = IsLine l × AreLines ls

-- The lines, each behind the end of the one before, and the blank line.
abbrev pub header : List Bytes → Bytes → Bytes
header [] body = 0x0d ∷ 0x0a ∷ 0x0d ∷ 0x0a ∷ body
header (l ∷ ls) body = 0x0d ∷ 0x0a ∷ (l ++ header ls body)

behind_blank_line-header :
    (ls : List Bytes) (body : Bytes) → AreLines ls → behind_blank_line (header ls body) ≡ some body
behind_blank_line-header [] body h = unfold behind_blank_line in refl
behind_blank_line-header ([] ∷ ls) body h = absurd h.0
behind_blank_line-header ((c ∷ l) ∷ ls) body h =
    behind_blank_line-end c (l ++ header ls body) h.0.0
    ∙ (behind_blank_line-line (c ∷ l) (header ls body) h.0 ∙ behind_blank_line-header ls body h.1)

take-append : (n : ℕ) (s t : Bytes) → length s ≡ n → take n (s ++ t) ≡ s
take-append zero [] t h = refl
take-append zero (c ∷ s) t h = absurd (omega (arith, h))
take-append (suc n) [] t h = absurd (omega (arith, h))
take-append (suc n) (c ∷ s) t h = rw (take-append n s t (omega (arith, h)))

status_of-to_decimal :
    (n : ℕ) (s : Bytes)
    → length (to_decimal n) ≡ 3
    → n < 1000
    → status_of (some (to_decimal n ++ s)) ≡ ok (pos n)
unfolding status_of to_string
status_of-to_decimal n s h3 small =
    rw (take-append 3 (to_decimal n) s h3, stoll-to_string (pos n) (omega arith))

-- A response whose header lines are not empty and hold no carriage return of their own, with a
-- status of three digits behind the version in its first line, is taken apart as it was put
-- together: the outcome is that of the status and of everything behind the blank line.
pub parse_response_lem :
    (version reason : Bytes) (status : ℕ) (ls : List Bytes) (body : Bytes)
    → Without b' ' version
    → Without 0x0d (version ++ b' ' ∷ (to_decimal status ++ reason))
    → length (to_decimal status) ≡ 3
    → status < 1000
    → AreLines ls
    → parse_response (version ++ b' ' ∷ (to_decimal status ++ (reason ++ header ls body)))
      ≡ by_status (pos status) body
unfolding parse_response
parse_response_lem version reason status ls body hv hl h3 small hls =
    let code = to_decimal status in
    let found = behind_byte-first b' ' version (code ++ (reason ++ header ls body)) hv in
    let n = status_of-to_decimal status (reason ++ header ls body) h3 small in
    let whole : version ++ b' ' ∷ (code ++ (reason ++ header ls body))
        ≡ (version ++ b' ' ∷ (code ++ reason)) ++ header ls body =
      rw (
        append_assoc version (b' ' ∷ (code ++ reason)) (header ls body),
        append_assoc code reason (header ls body),
      ) in
    let blank =
      behind_blank_line-line (version ++ b' ' ∷ (code ++ reason)) (header ls body) hl
      ∙ behind_blank_line-header ls body hls in
    rw (found, n, whole, blank)
