-- ===== src/Rpc/Tests.antt =====
-- Runs of the client of src/rpc_client.cpp.
use bitcoin_tui.Base.{
  ◌≤◌, false, some, none, List, [], ◌∷◌, ◌++◌, Bytes, codes, length, replicate, pos, negsuc,
  to_decimal, to_string, stoll, span_digits, compare_bytes, ok, Throws, ◌≡◌, refl, inr, arith,
}
use bitcoin_tui.Json.Value.{Json, null, int, float, string, object, no_fields, field, insert}
use bitcoin_tui.Json.Scan.{peek, consume, expect, escape, string_loop, parse_string_val, skip_ws}
use bitcoin_tui.Json.Parser.{
  scan_number, keyword, parse_number, parse_scalar, parse_value, finish, parse,
}
use bitcoin_tui.Json.Dump.{
  hex_digit, print_u, quote_byte, quote_bytes, quote, new_line, space_if_pretty, dump_impl, dump,
}
use bitcoin_tui.Json.Access.{initializer_list}
use bitcoin_tui.Json.Tests.{text_floats}
use bitcoin_tui.Rpc.Base64.{base64_encode, base64_decode, base64_decode-base64_encode}
use bitcoin_tui.Rpc.Uri.{uri_encode, percent_decode, AreSafe, uri_encode_lem}
use bitcoin_tui.Rpc.Http.{RpcConfig, RpcAuth, Network, closed, http_post, send_loop, build_request}
use bitcoin_tui.Rpc.Http.Response.{held, replay, http_post-releases, send_loop_lem, header}
use bitcoin_tui.Rpc.Http.Exchange.{Answers}
use bitcoin_tui.Rpc.Client.{RpcClient, request, call_endpoint}
use bitcoin_tui.Rpc.Client.Reply.{Means}
use bitcoin_tui.Rpc.Client.Calls.{LeavesCall, next_request, call_endpoint_lem, call_endpoint-Throws}

base64_decode-base64_encode_example :
    base64_decode (base64_encode (codes "u:é")) ≡ some (codes "u:é")
base64_decode-base64_encode_example = base64_decode-base64_encode (codes "u:é") (ground arith)

uri_encode_lem_example :
    AreSafe (uri_encode (codes "w/é"))
    × (percent_decode (uri_encode (codes "w/é")) ≡ some (codes "w/é"))
uri_encode_lem_example = uri_encode_lem (codes "w/é") (ground arith)

abbrev config : RpcConfig
config = record { host = codes "h"; port = pos 8332; timeout_seconds = pos 30 }

abbrev auth : RpcAuth
auth = record { user = codes "u"; password = codes "p" }

abbrev client : RpcClient
client = record { config = config; auth = auth; request_id = pos 0 }

abbrev lines : List Bytes
lines = codes "Server: x" ∷ codes "Connection: close" ∷ []

-- As Bitcoin Core writes it, with an amount of eight decimals that is read before the error.
abbrev reply_text : Bytes
reply_text = codes "{\"result\":0.50000000,\"error\":{\"code\":-8,\"message\":\"no\"},\"id\":1}\n"

-- Its members in the order of their keys.
abbrev reply : Json Bytes
reply = object (
    field (codes "error")
      (object (
        field (codes "code") (int (negsuc 7))
          (field (codes "message") (string (codes "no")) no_fields)))
      (field (codes "id") (int (pos 1))
        (field (codes "result") (float (codes "0.50000000")) no_fields)))

reply_text-parse : parse text_floats reply_text ≡ ok reply
unfolding parse parse_value peek consume expect parse_string_val string_loop escape parse_scalar
    parse_number scan_number keyword insert finish skip_ws stoll span_digits compare_bytes
reply_text-parse = refl

abbrev refusing : Network
refusing = record {
  getaddrinfo_error = none;
  socket_error = none;
  connect_error = some (codes "Connection refused");
  sends = [];
  send_error = [];
  received = [];
  recv_end = closed;
}

-- It sends a byte at a time.
abbrev slow : Network
slow = record {
  getaddrinfo_error = none;
  socket_error = none;
  connect_error = none;
  sends = replicate 300 (pos 1);
  send_error = [];
  received =
      codes "HTTP/1.1"
      ++ b' ' ∷ (to_decimal 500 ++ (codes " Internal Server Error" ++ header lines reply_text));
  recv_end = closed;
}

-- The second send() fails.
abbrev breaking : Network
breaking = record slow { sends = pos 5 ∷ negsuc 0 ∷ replicate 300 (pos 1) }

short_request : length (build_request config auth (codes "/") (codes "{}")) ≤ 302
unfolding build_request base64_encode to_string to_decimal
short_request = omega arith

http_post-releases_example :
    replay (http_post config auth breaking (codes "/") (codes "{}")).0 (held false false)
    ≡ some (held false false)
http_post-releases_example =
    http_post-releases config auth breaking (codes "/") (codes "{}") short_request

send_loop_lem_example :
    send_loop (codes "e") (pos 2 ∷ pos 1 ∷ pos 9 ∷ []) [] (codes "abc") ≡ ok (codes "abc")
send_loop_lem_example =
    send_loop_lem (codes "e") (pos 2 ∷ pos 1 ∷ pos 9 ∷ []) [] (codes "abc")
      (refl, (refl, (refl, tt))) (omega arith)

call_endpoint-Throws_example :
    Throws LeavesCall (call_endpoint text_floats client refusing (codes "/") (codes "stop") null).2
call_endpoint-Throws_example =
    call_endpoint-Throws text_floats client refusing (codes "/") (codes "stop") null

short : length (next_request text_floats client (codes "/") (codes "stop") null) ≤ 300
unfolding build_request base64_encode to_string to_decimal request initializer_list insert
    compare_bytes dump dump_impl quote quote_bytes quote_byte print_u hex_digit new_line
    space_if_pretty
short = omega arith

slow-Answers :
    Answers slow
      (length (next_request text_floats client (codes "/") (codes "stop") null))
      500
      reply_text
unfolding to_decimal
slow-Answers = record {
  resolved = refl;
  opened = refl;
  connected = refl;
  sent = ground arith;
  enough = short;
  version = codes "HTTP/1.1";
  reason = codes " Internal Server Error";
  ls = lines;
  no_space = ground arith;
  first_line = ground arith;
  three_digits = refl;
  small = omega arith;
  are_lines = ground arith;
  received = refl;
}

call_endpoint_lem_example :
    Means text_floats reply
      (call_endpoint text_floats client slow (codes "/") (codes "stop") null).2
    × ((call_endpoint text_floats client slow (codes "/") (codes "stop") null).0.request_id ≡ pos 1)
call_endpoint_lem_example =
    call_endpoint_lem text_floats client slow (codes "/") (codes "stop") null 500 reply_text reply
      reply_text-parse (inr refl) slow-Answers
