-- ===== src/Poll/Core.antt =====
-- src/poll.cpp: the calls that fill the core of the state.
use bitcoin_tui.Base.{
  Bool, true, false, ◌&&◌, List, [], ◌∷◌, ◌++◌, Bytes, codes, em_dash, if◌then◌else◌, Option, none,
  some, ◌⊎◌, ℤ, pos, Outcome, ok, throw, out_of_fuel, Exception, bind,
}
use bitcoin_tui.State.{empty}
use bitcoin_tui.Json.Value.{Floats, Json, Items, array, no_items, item}
use bitcoin_tui.Json.Access.{
  get_int64, get_int, get_double, get_string, get_bool, is_array, is_number, is_bool, index,
  contains, elements, value, or_default,
}
use bitcoin_tui.Search.{result_of}
use bitcoin_tui.Search.Fields.{Arithmetic}
use bitcoin_tui.Poll.State.{PeerInfo, AppState}

-- More of what is done with doubles.
pub record PollDoubles (D : Type 0) : Type 0 where
  pub minus_one : D
  -- difficulty * 4294967296.0 / 600.0
  pub hashps : D → D
  -- seconds * 1000.0
  pub millis : D → D

-- `node` is what a call comes back with, for a method and its parameters, and `now_text` is
-- now_string().
module _ (fl : Floats) (a : Arithmetic fl.Double) (d : PollDoubles fl.Double)
    (node : Bytes → Json fl.Double → Exception ⊎ Json fl.Double) (now_text : Bytes) where
  open fl use {Double}

  -- rpc.call(method)["result"]
  unfoldable pub call_result : Bytes → Exception ⊎ Json Double
  call_result method = result_of (node method (array no_items))

  abbrev pub int64_of : Bytes → Json Double → ℤ
  int64_of key v = value (get_int64 fl) key (pos 0) v

  abbrev pub int_of : Bytes → Json Double → ℤ
  int_of key v = value (get_int fl) key (pos 0) v

  abbrev pub text_of : Bytes → Bytes → Json Double → Bytes
  text_of key def v = value get_string key def v

  abbrev pub double_of : Bytes → Json Double → Double
  double_of key v = value (get_double fl) key a.zero_double v

  abbrev pub bool_of : Bytes → Bool → Json Double → Bool
  bool_of key def v = value get_bool key def v

  blockchain : Json Double → AppState Double → AppState Double
  blockchain bc s = record s {
    chain = text_of (codes "chain") em_dash bc;
    blocks = int64_of (codes "blocks") bc;
    headers = int64_of (codes "headers") bc;
    difficulty = double_of (codes "difficulty") bc;
    progress = double_of (codes "verificationprogress") bc;
    pruned = bool_of (codes "pruned") false bc;
    ibd = bool_of (codes "initialblockdownload") false bc;
    bestblockhash = text_of (codes "bestblockhash") [] bc;
  }

  network : Json Double → AppState Double → AppState Double
  network net s = record s {
    connections = int_of (codes "connections") net;
    connections_in = int_of (codes "connections_in") net;
    connections_out = int_of (codes "connections_out") net;
    subversion = text_of (codes "subversion") [] net;
    protocol_version = int_of (codes "protocolversion") net;
    network_active = bool_of (codes "networkactive") true net;
    relay_fee = double_of (codes "relayfee") net;
  }

  mempool : Json Double → AppState Double → AppState Double
  mempool mp s = record s {
    mempool_tx = int64_of (codes "size") mp;
    mempool_bytes = int64_of (codes "bytes") mp;
    mempool_usage = int64_of (codes "usage") mp;
    mempool_max = value (get_int64 fl) (codes "maxmempool") (pos 300000000) mp;
    mempool_min_fee = double_of (codes "mempoolminfee") mp;
    total_fee = double_of (codes "total_fee") mp;
  }

  -- The names of the services, with commas; one that is no string is an exception.
  join_services : Bytes → Items Double → Outcome Bytes
  join_services svc no_items = ok svc
  join_services svc (item sv svs) =
      bind (get_string sv)
        (λ name. join_services ((if empty svc then svc else svc ++ codes ", ") ++ name) svs)

  services_of : Json Double → Outcome Bytes
  unfolding join_services
  services_of p =
      let names = index (codes "servicesnames") p in
      if contains (codes "servicesnames") p && is_array names
      then join_services [] (elements names)
      else ok []

  millis_of : Bytes → Json Double → Double
  millis_of key p =
      let v = index key p in
      if contains key p && is_number v
      then d.millis (or_default (get_double fl v) a.zero_double)
      else d.minus_one

  flag_of : Bytes → Json Double → Bool
  flag_of key p =
      let v = index key p in
      if contains key p && is_bool v then or_default (get_bool v) false else false

  unfoldable pub peer_of : Json Double → Outcome (PeerInfo Double)
  unfolding services_of millis_of flag_of
  peer_of p = bind (services_of p) (λ services. ok (record {
    id = int_of (codes "id") p;
    addr = text_of (codes "addr") [] p;
    network = text_of (codes "network") [] p;
    subver = text_of (codes "subver") [] p;
    inbound = bool_of (codes "inbound") false p;
    bytes_sent = int64_of (codes "bytessent") p;
    bytes_recv = int64_of (codes "bytesrecv") p;
    ping_ms = millis_of (codes "pingtime") p;
    version = int_of (codes "version") p;
    synced_blocks = int64_of (codes "synced_blocks") p;
    conntime = int64_of (codes "conntime") p;
    services = services;
    bip152_hb_from = flag_of (codes "bip152_hb_from") p;
    bip152_hb_to = flag_of (codes "bip152_hb_to") p;
    connection_type = text_of (codes "connection_type") [] p;
    transport = text_of (codes "transport_protocol_type") [] p;
    addr_processed = int64_of (codes "addr_processed") p;
    min_ping_ms = millis_of (codes "minping") p;
  }))

  -- The peers in front of the first that is an exception, and the exception.
  unfoldable pub peers_of : Items Double → List (PeerInfo Double) × Option Exception
  peers_of no_items = ([], none)
  peers_of (item p ps) =
      let (peers, e) = peers_of ps in
      elim (peer_of p) [
        | ok peer ↦ (peer ∷ peers, e)
        | throw x ↦ ([], some x)
        | out_of_fuel ↦ ([], none)
      ]

  -- What is set behind the peers, unless they end with an exception.
  unfoldable pub is_connected : Option Exception → AppState Double → AppState Double
  is_connected none s = record s { connected = true; error_message = []; last_update = now_text }
  is_connected (some e) s = s

  -- What is set in front of that.
  unfoldable pub core_fields :
      Json Double → Json Double → Json Double → Json Double → AppState Double → AppState Double
  unfolding blockchain network mempool peers_of
  core_fields bc net mp pi s = record (mempool mp (network net (blockchain bc s))) {
    network_hashps = d.hashps (double_of (codes "difficulty") bc);
    peers = (peers_of (elements pi)).0;
  }

  unfoldable pub core_update :
      Json Double
      → Json Double
      → Json Double
      → Json Double
      → AppState Double
      → AppState Double × Option Exception
  unfolding core_fields is_connected peers_of
  core_update bc net mp pi s =
      let e = (peers_of (elements pi)).1 in (is_connected e (core_fields bc net mp pi s), e)
