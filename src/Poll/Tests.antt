-- ===== src/Poll/Tests.antt =====
-- Runs of src/poll.cpp, with doubles kept as their text.
use bitcoin_tui.Base.{
  [], Bytes, codes, same_bytes, compare_bytes, map, if◌then◌else◌, ◌⊎◌, inl, inr, pos, Exception,
  rpc_error, ◌≡◌, refl, arith,
}
use bitcoin_tui.Json.Value.{Json, int, array, object, no_items, item, no_fields, field, find}
use bitcoin_tui.Json.Access.{index, value, get_int64, initializer_list}
use bitcoin_tui.Json.Tests.{text_floats}
use bitcoin_tui.Search.{result_of}
use bitcoin_tui.Search.Fields.{Arithmetic}
use bitcoin_tui.Poll.State.{BlockStat, AppState, no_state}
use bitcoin_tui.Poll.{PollDoubles, call_result, peers_of, stats_at, poll_rpc}
use bitcoin_tui.Poll.Recent.{Answers, IsPolled}
use bitcoin_tui.Poll.Tips.{HasStats, count_down, poll_rpc-recent, poll_rpc-lost}

abbrev text_arithmetic : Arithmetic Bytes
text_arithmetic = record {
  zero_double = codes "0.0";
  plus = λ x y. x;
  rate = λ x n. x;
  std_what = λ e. codes "stoll";
}

abbrev text_doubles : PollDoubles Bytes
text_doubles = record { minus_one = codes "-1.0"; hashps = λ x. x; millis = λ x. x }

abbrev with_result : Json Bytes → Exception ⊎ Json Bytes
with_result v = inr (object (field (codes "result") v no_fields))

-- The statistics of the block that is asked for: its height.
stats_of : Json Bytes → Exception ⊎ Json Bytes
stats_of (array (item (int h) params)) =
    with_result (object (field (codes "height") (int h) no_fields))
stats_of _ = inl (rpc_error (codes "Invalid parameters"))

-- A node with two blocks, and a node that has pruned their statistics.
answers : Bytes → Json Bytes → Exception ⊎ Json Bytes
unfolding stats_of
answers method params =
    if same_bytes method (codes "getblockchaininfo")
    then with_result (object (field (codes "blocks") (int (pos 1)) no_fields))
    else if same_bytes method (codes "getblockstats")
    then stats_of params
    else with_result (array no_items)

pruned : Bytes → Json Bytes → Exception ⊎ Json Bytes
pruned method params =
    if same_bytes method (codes "getblockchaininfo")
    then with_result (object (field (codes "blocks") (int (pos 1)) no_fields))
    else if same_bytes method (codes "getblockstats")
    then inl (rpc_error (codes "Block not available (pruned data)"))
    else with_result (array no_items)

abbrev start : AppState Bytes
start = no_state (codes "0.0")

abbrev now : Bytes
now = codes "12:00:00"

answers-Answers : Answers text_floats text_arithmetic text_doubles answers now (pos 1)
unfolding answers call_result result_of index find value get_int64 peers_of compare_bytes
answers-Answers = record {
  bc = object (field (codes "blocks") (int (pos 1)) no_fields);
  net = array no_items;
  mp = array no_items;
  pi = array no_items;
  blockchain = refl;
  network = refl;
  mempool = refl;
  peers = refl;
  same_tip = refl;
  readable = refl;
}

pruned-Answers : Answers text_floats text_arithmetic text_doubles pruned now (pos 1)
unfolding pruned call_result result_of index find value get_int64 peers_of compare_bytes
pruned-Answers = record {
  bc = object (field (codes "blocks") (int (pos 1)) no_fields);
  net = array no_items;
  mp = array no_items;
  pi = array no_items;
  blockchain = refl;
  network = refl;
  mempool = refl;
  peers = refl;
  same_tip = refl;
  readable = refl;
}

answers-HasStats : HasStats text_floats text_arithmetic text_doubles answers now 1
unfolding answers stats_at result_of index find value get_int64 initializer_list compare_bytes
answers-HasStats h le = (object (field (codes "height") (int (pos h)) no_fields), refl, refl)

start-IsPolled : IsPolled text_floats text_arithmetic text_doubles pruned now start
start-IsPolled = record { status = inr refl; few = omega arith }

poll_rpc-recent_example :
    (map
        (λ (b : BlockStat). b.height)
        (poll_rpc text_floats text_arithmetic text_doubles answers now start).recent_blocks
      ≡ count_down 20 1)
    × ((poll_rpc text_floats text_arithmetic text_doubles pruned now
          (poll_rpc text_floats text_arithmetic text_doubles answers now start)).recent_blocks
        ≡ (poll_rpc text_floats text_arithmetic text_doubles answers now start).recent_blocks)
poll_rpc-recent_example =
    poll_rpc-recent text_floats text_arithmetic text_doubles answers pruned now now 0 start
      answers-Answers answers-HasStats pruned-Answers (ground arith)

pruned-fails :
    stats_at text_floats text_arithmetic text_doubles pruned now (pos 1)
    ≡ inl (rpc_error (codes "Block not available (pruned data)"))
unfolding pruned stats_at result_of compare_bytes
pruned-fails = refl

poll_rpc-lost_example :
    ((poll_rpc text_floats text_arithmetic text_doubles pruned now start).recent_blocks ≡ [])
    × ((poll_rpc text_floats text_arithmetic text_doubles answers now
          (poll_rpc text_floats text_arithmetic text_doubles pruned now start)).recent_blocks
        ≡ [])
poll_rpc-lost_example =
    poll_rpc-lost text_floats text_arithmetic text_doubles pruned answers now now 0 start
      (rpc_error (codes "Block not available (pruned data)")) pruned-Answers pruned-fails
      answers-Answers (ground arith)
