-- ===== src/Poll/State.antt =====
-- src/state.hpp: the state that the poll thread fills and the tabs show.
use bitcoin_tui.Base.{Bool, true, false, List, [], Bytes, em_dash, ℤ, pos, negsuc}

pub record BlockStat : Type 0 where
  pub height : ℤ
  pub txs : ℤ
  pub total_size : ℤ
  pub total_weight : ℤ
  pub time : ℤ

-- `D` is double.
pub record PeerInfo (D : Type 0) : Type 0 where
  pub id : ℤ
  pub addr : Bytes
  pub network : Bytes
  pub subver : Bytes
  pub inbound : Bool
  pub bytes_sent : ℤ
  pub bytes_recv : ℤ
  pub ping_ms : D
  pub version : ℤ
  pub synced_blocks : ℤ
  pub conntime : ℤ
  pub services : Bytes
  pub bip152_hb_from : Bool
  pub bip152_hb_to : Bool
  pub connection_type : Bytes
  pub transport : Bytes
  pub addr_processed : ℤ
  pub min_ping_ms : D

pub record AppState (D : Type 0) : Type 0 where
  pub chain : Bytes
  pub blocks : ℤ
  pub headers : ℤ
  pub difficulty : D
  pub progress : D
  pub pruned : Bool
  pub ibd : Bool
  pub bestblockhash : Bytes
  pub connections : ℤ
  pub connections_in : ℤ
  pub connections_out : ℤ
  pub subversion : Bytes
  pub protocol_version : ℤ
  pub network_active : Bool
  pub relay_fee : D
  pub mempool_tx : ℤ
  pub mempool_bytes : ℤ
  pub mempool_usage : ℤ
  pub mempool_max : ℤ
  pub mempool_min_fee : D
  pub total_fee : D
  pub network_hashps : D
  pub peers : List (PeerInfo D)
  pub recent_blocks : List BlockStat
  pub blocks_fetched_at : ℤ
  pub block_anim_active : Bool
  pub block_anim_frame : ℤ
  pub block_anim_old : List BlockStat
  pub last_update : Bytes
  pub error_message : Bytes
  pub connected : Bool
  pub refreshing : Bool
  pub privbcast_txids : List Bytes

-- `AppState{}`, with 0.0 given.
abbrev pub no_state : {D : Type 0} → D → AppState D
no_state zero_double = record {
  chain = em_dash;
  blocks = pos 0;
  headers = pos 0;
  difficulty = zero_double;
  progress = zero_double;
  pruned = false;
  ibd = false;
  bestblockhash = [];
  connections = pos 0;
  connections_in = pos 0;
  connections_out = pos 0;
  subversion = [];
  protocol_version = pos 0;
  network_active = true;
  relay_fee = zero_double;
  mempool_tx = pos 0;
  mempool_bytes = pos 0;
  mempool_usage = pos 0;
  mempool_max = pos 300000000;
  mempool_min_fee = zero_double;
  total_fee = zero_double;
  network_hashps = zero_double;
  peers = [];
  recent_blocks = [];
  blocks_fetched_at = negsuc 0;
  block_anim_active = false;
  block_anim_frame = pos 0;
  block_anim_old = [];
  last_update = [];
  error_message = [];
  connected = false;
  refreshing = false;
  privbcast_txids = [];
}
