-- ===== src/Rpc/Client/Reply.antt =====
-- src/rpc_client.cpp: the request that a call sends, and what it makes of the server's reply.
use bitcoin_tui.Base.{
  Bool, true, false, ◌||◌, ◌&&◌, ◌++◌, Bytes, codes, ℤ, negsuc, InInt64, Outcome, Returns,
  Returns-if, Returns-bind, ok, throw, rpc_error, ◌≡◌, refl, sym, arith, Bool-cases, compare_bytes,
  inl, inr,
}
use bitcoin_tui.Json.Value.{
  Floats, Json, null, bool, int, float, string, array, object, find, insert,
}
use bitcoin_tui.Json.Numbers.{ReadsBack}
use bitcoin_tui.Json.Valid.{IsValid}
use bitcoin_tui.Json.RoundTrip.{parse-dump}
use bitcoin_tui.Json.Parser.{parse}
use bitcoin_tui.Json.Dump.{dump}
use bitcoin_tui.Json.Access.{
  is_null, is_string, is_number_integer, is_number, get_string, get_int64, index, contains,
}
use bitcoin_tui.Json.Access.Laws.{index-contains, true≢false}
use bitcoin_tui.Rpc.Client.{
  request, error_message, code_text, check_reply, read_reply, on_parse_error,
}

request-IsValid :
    (fl : Floats) (id : ℤ) (method : Bytes) (params : Json fl.Double)
    → InInt64 id
    → IsValid (ReadsBack fl) params
    → IsValid (ReadsBack fl) (request id method params)
unfolding request insert compare_bytes IsValid
request-IsValid fl id method params hid hp =
    (((refl, (refl, tt)), ((refl, tt), (tt, tt))), (hid, (tt, (hp, tt))))

-- The body of a request parses back as an object whose members are the number, the method and the
-- parameters of the call, when the number fits int64_t and the parameters are a value that the
-- printer writes in full.
pub request_lem :
    (fl : Floats) (id : ℤ) (method : Bytes) (params : Json fl.Double)
    → InInt64 id
    → IsValid (ReadsBack fl) params
    → (parse fl (dump fl (negsuc 0) (request id method params)) ≡ ok (request id method params))
      × (index (codes "id") (request id method params) ≡ int id)
      × (index (codes "method") (request id method params) ≡ string method)
      × (index (codes "params") (request id method params) ≡ params)
unfolding request insert compare_bytes index find
request_lem fl id method params hid hp = (
  parse-dump fl (negsuc 0) (request id method params) (request-IsValid fl id method params hid hp),
  refl,
  refl,
  refl,
)

-- An error that is an object with a text under "message" is reported by that text.
error_message-text :
    (fl : Floats) (err : Json fl.Double) (msg : Bytes)
    → index (codes "message") err ≡ string msg
    → error_message fl err ≡ ok msg
unfolding error_message get_string
error_message-text fl err msg h =
    let there = index-contains (codes "message") err (rw h refl) in ground (arith, h, there)

get_int64-Returns :
    (fl : Floats) (v : Json fl.Double)
    → (is_number_integer v || is_number v) ≡ true
    → Returns (get_int64 fl v)
unfolding get_int64
get_int64-Returns fl null h = absurd (true≢false (sym h))
get_int64-Returns fl (bool b) h = absurd (true≢false (sym h))
get_int64-Returns fl (int i) h = (i, refl)
get_int64-Returns fl (float d) h = (fl.to_int d, refl)
get_int64-Returns fl (string s) h = absurd (true≢false (sym h))
get_int64-Returns fl (array xs) h = absurd (true≢false (sym h))
get_int64-Returns fl (object fs) h = absurd (true≢false (sym h))

and-right : (b c : Bool) → (b && c) ≡ true → c ≡ true
and-right true c h = h
and-right false c h = absurd (true≢false (sym h))

code_text-Returns : (fl : Floats) (err : Json fl.Double) → Returns (code_text fl err)
unfolding code_text
code_text-Returns fl err =
    let code = index (codes "code") err in
    Returns-if (contains (codes "code") err && (is_number_integer code || is_number code))
      (λ e. Returns-bind (get_int64-Returns fl code (and-right _ _ e)) (λ n. (_, refl)))
      (λ e. (_, refl))

error_message-other :
    (fl : Floats) (err : Json fl.Double)
    → is_string (index (codes "message") err) ≡ false
    → (tail : Bytes) × (error_message fl err ≡ ok (codes "RPC error" ++ tail))
unfolding error_message
error_message-other fl err h =
    let (code, e) = code_text-Returns fl err in
    (code ++ (codes ": " ++ dump fl (negsuc 0) err), ground (arith, h, e))

string-of : {D : Type 0} (v : Json D) → is_string v ≡ true → (s : Bytes) × (v ≡ string s)
string-of null h = absurd (true≢false (sym h))
string-of (bool b) h = absurd (true≢false (sym h))
string-of (int i) h = absurd (true≢false (sym h))
string-of (float d) h = absurd (true≢false (sym h))
string-of (string s) h = (s, refl)
string-of (array xs) h = absurd (true≢false (sym h))
string-of (object fs) h = absurd (true≢false (sym h))

check_reply-fine :
    (fl : Floats) (reply : Json fl.Double)
    → is_null (index (codes "error") reply) ≡ true
    → check_reply fl reply ≡ ok reply
unfolding check_reply
check_reply-fine fl reply h = ground (arith, h)

check_reply-error :
    (fl : Floats) (reply : Json fl.Double) (msg : Bytes)
    → is_null (index (codes "error") reply) ≡ false
    → error_message fl (index (codes "error") reply) ≡ ok msg
    → check_reply fl reply ≡ throw (rpc_error msg)
unfolding check_reply
check_reply-error fl reply msg h e =
    let there = index-contains (codes "error") reply h in rw (there, h, e) refl

-- What a reply means: itself if its "error" is null or missing, otherwise an RpcError with the text
-- under the error's "message", or with one of the client's own if there is none.
pub data Means (fl : Floats) (reply : Json fl.Double) : Outcome (Json fl.Double) → Type 0 where
  fine : is_null (index (codes "error") reply) ≡ true → Means fl reply (ok reply)
  with_message :
      (msg : Bytes)
      → is_null (index (codes "error") reply) ≡ false
      → index (codes "message") (index (codes "error") reply) ≡ string msg
      → Means fl reply (throw (rpc_error msg))
  other :
      (tail : Bytes)
      → is_null (index (codes "error") reply) ≡ false
      → is_string (index (codes "message") (index (codes "error") reply)) ≡ false
      → Means fl reply (throw (rpc_error (codes "RPC error" ++ tail)))

pub check_reply-Means :
    (fl : Floats) (reply : Json fl.Double) → Means fl reply (check_reply fl reply)
check_reply-Means fl reply =
    let err = index (codes "error") reply in
    let message = index (codes "message") err in
    elim (Bool-cases (is_null err)) [
      | inl e ↦ rw (check_reply-fine fl reply e) (fine e)
      | inr e ↦ elim (Bool-cases (is_string message)) [
        | inl m ↦
            let (msg, text) = string-of message m in
            rw (check_reply-error fl reply msg e (error_message-text fl err msg text))
              (with_message msg e text)
        | inr m ↦
            let (tail, text) = error_message-other fl err m in
            rw (check_reply-error fl reply (codes "RPC error" ++ tail) e text) (other tail e m)
      ]
    ]

-- A reply that the parser reads as a value is taken for what this value means.
pub read_reply-Means :
    (fl : Floats) (text : Bytes) (reply : Json fl.Double)
    → parse fl text ≡ ok reply
    → Means fl reply (read_reply fl text)
unfolding read_reply on_parse_error
read_reply-Means fl text reply h = rw h (check_reply-Means fl reply)
