-- ===== src/State.antt =====
-- src/state.hpp: the search state that the Mempool tab shows, and the pure helpers on it.
pub mod Queries
use bitcoin_tui.Base.{
  ℕ, suc, Bool, true, false, ◌&&◌, ◌||◌, not, List, [], ◌∷◌, Bytes, length, ◌==◌, leb, is_digit, ℤ,
  pos, negsuc, ◌+ℤ◌, if◌then◌else◌,
}

pub record TxVin : Type 0 where
  pub txid : Bytes
  pub vout : ℤ
  pub is_coinbase : Bool

pub record TxVout (D : Type 0) : Type 0 where
  pub value : D
  pub address : Bytes
  pub type : Bytes

-- `D` is double.
pub record TxSearchState (D : Type 0) : Type 0 where
  pub txid : Bytes
  pub searching : Bool
  pub found : Bool
  pub is_block : Bool
  pub confirmed : Bool
  pub error : Bytes
  pub vsize : ℤ
  pub weight : ℤ
  pub fee : D
  pub fee_rate : D
  pub ancestors : ℤ
  pub descendants : ℤ
  pub entry_time : ℤ
  pub blockhash : Bytes
  pub block_height : ℤ
  pub confirmations : ℤ
  pub blocktime : ℤ
  pub vin_count : ℤ
  pub vout_count : ℤ
  pub total_output : D
  pub blk_hash : Bytes
  pub blk_height : ℤ
  pub blk_time : ℤ
  pub blk_ntx : ℤ
  pub blk_size : ℤ
  pub blk_weight : ℤ
  pub blk_difficulty : D
  pub blk_miner : Bytes
  pub blk_confirmations : ℤ
  pub vin_list : List TxVin
  pub vout_list : List (TxVout D)
  pub io_selected : ℤ
  pub inputs_overlay_open : Bool
  pub input_overlay_sel : ℤ
  pub outputs_overlay_open : Bool
  pub output_overlay_sel : ℤ

-- `TxSearchState{}`, with 0.0 given.
abbrev pub no_search : {D : Type 0} → D → TxSearchState D
no_search zero_double = record {
  txid = [];
  searching = false;
  found = false;
  is_block = false;
  confirmed = false;
  error = [];
  vsize = pos 0;
  weight = pos 0;
  fee = zero_double;
  fee_rate = zero_double;
  ancestors = pos 0;
  descendants = pos 0;
  entry_time = pos 0;
  blockhash = [];
  block_height = negsuc 0;
  confirmations = pos 0;
  blocktime = pos 0;
  vin_count = pos 0;
  vout_count = pos 0;
  total_output = zero_double;
  blk_hash = [];
  blk_height = pos 0;
  blk_time = pos 0;
  blk_ntx = pos 0;
  blk_size = pos 0;
  blk_weight = pos 0;
  blk_difficulty = zero_double;
  blk_miner = [];
  blk_confirmations = pos 0;
  vin_list = [];
  vout_list = [];
  io_selected = negsuc 0;
  inputs_overlay_open = false;
  input_overlay_sel = negsuc 0;
  outputs_overlay_open = false;
  output_overlay_sel = negsuc 0;
}

pub data TxResultKind : Type 0 where
  searching_kind block_kind mempool_kind confirmed_kind error_kind : TxResultKind

abbrev pub empty {ℓ} : {A : Type ℓ} → List A → Bool
empty [] = true
empty (x ∷ xs) = false

module _ {D : Type 0} where
  unfoldable pub classify_result : TxSearchState D → TxResultKind
  classify_result ss =
      if ss.searching
      then searching_kind
      else if not ss.found
      then error_kind
      else if ss.is_block
      then block_kind
      else if ss.confirmed
      then confirmed_kind
      else mempool_kind

  unfoldable pub io_inputs_idx : TxSearchState D → ℤ
  io_inputs_idx ss = if empty ss.vin_list then negsuc 0 else pos 1

  unfoldable pub io_outputs_idx : TxSearchState D → ℤ
  io_outputs_idx ss =
      if empty ss.vout_list then negsuc 0 else if empty ss.vin_list then pos 1 else pos 2

  unfoldable pub io_max_sel : TxSearchState D → ℤ
  io_max_sel ss =
      let n = if not (empty ss.vin_list) then pos 1 else pos 0 in
      if not (empty ss.vout_list) then n +ℤ pos 1 else n

abbrev pub all_of : (ℕ → Bool) → Bytes → Bool
all_of test [] = true
all_of test (c ∷ s) = test c && all_of test s

-- std::isxdigit in the "C" locale.
abbrev pub is_xdigit : ℕ → Bool
is_xdigit c = is_digit c || (leb b'a' c && leb c b'f') || (leb b'A' c && leb c b'F')

unfoldable pub is_txid : Bytes → Bool
is_txid s = if not (length s == 64) then false else all_of is_xdigit s

unfoldable pub is_height : Bytes → Bool
is_height s = not (empty s) && leb (length s) 8 && all_of is_digit s
