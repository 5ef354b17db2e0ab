-- ===== src/Search/Kinds.antt =====
-- src/search.cpp: what the search shows, answer by answer.
use bitcoin_tui.Base.{
  Bool, true, false, ◌&&◌, not, Bytes, codes, length, if◌then◌else◌, Option, none, some, ◌⊎◌, inl,
  inr, ℤ, negsuc, ◌≤ℤ◌, stoll, Outcome, ok, throw, out_of_fuel, Exception, ◌≡◌, refl, arith,
}
use bitcoin_tui.Json.Value.{Floats, Json, string}
use bitcoin_tui.Json.Access.{contains, is_array, is_empty, index}
use bitcoin_tui.State.{TxSearchState}
use bitcoin_tui.Mempool.Thread.{MempoolTab}
use bitcoin_tui.Mempool.Steps.{new_tab, Reaches, tab-WellFormed}
use bitcoin_tui.Mempool.Selection.{InSel, Selected, WellFormed, last-ge, io_max_sel-ge}
use bitcoin_tui.Search.{
  with_coinbase, block_fields, block_from, fetch_block, block_of_hash, search_height, search_tx,
  search_mempool, with_error, perform_tx_search,
}
use bitcoin_tui.Search.Fields.{
  Arithmetic, mempool_result, with_vins, with_vouts, tx_fields, confirmed_result,
}

-- The fields of a result that the search leaves alone: no selection is made, the search is over.
pub record IsCore (query txid : Bytes) (searching : Bool) (io input output : ℤ) : Type 0 where
  pub same_txid : txid ≡ query
  pub over : searching ≡ false
  pub io_none : io ≡ negsuc 0
  pub input_none : input ≡ negsuc 0
  pub output_none : output ≡ negsuc 0

abbrev pub IsResult : {D : Type 0} → Bytes → TxSearchState D → Type 0
IsResult query ss =
    IsCore query ss.txid ss.searching ss.io_selected ss.input_overlay_sel ss.output_overlay_sel

none-InSel : (i n : ℤ) → i ≡ negsuc 0 → negsuc 0 ≤ℤ n → InSel i n
none-InSel i n e h = rw e (record { above = omega arith; below = h })

result-Selected :
    {D : Type 0} (query : Bytes) (ss : TxSearchState D) → IsResult query ss → Selected ss
result-Selected query ss r = record {
  io = none-InSel ss.io_selected _ r.io_none (io_max_sel-ge ss);
  input = none-InSel ss.input_overlay_sel _ r.input_none (last-ge (length ss.vin_list));
  output = none-InSel ss.output_overlay_sel _ r.output_none (last-ge (length ss.vout_list));
}

if-IsResult :
    {D : Type 0} {query : Bytes} (b : Bool) (s t : TxSearchState D)
    → IsResult query s
    → IsResult query t
    → IsResult query (if b then s else t)
if-IsResult true s t hs ht = hs
if-IsResult false s t hs ht = ht

module _ (fl : Floats) (a : Arithmetic fl.Double)
    (node : Bytes → Json fl.Double → Exception ⊎ Json fl.Double) where
  open fl use {Double}

  -- A part of the search: the result and what it threw.
  pub record Leaves (query : Bytes) (r : TxSearchState Double × Option Exception) : Type 0 where
    pub result : IsResult query r.0

  if-Leaves :
      {query : Bytes} (b : Bool) {r s : TxSearchState Double × Option Exception}
      → Leaves query r
      → Leaves query s
      → Leaves query (if b then r else s)
  if-Leaves true hr hs = hr
  if-Leaves false hr hs = hs

  with_coinbase-Leaves :
      (query : Bytes) (v : Json Double) (ss : TxSearchState Double)
      → IsResult query ss
      → Leaves query (with_coinbase fl a node v ss)
  unfolding with_coinbase
  with_coinbase-Leaves query (string txid) ss r = record { result = r }
  with_coinbase-Leaves query _ ss r = record { result = r }

  block_from-Leaves :
      (query hash : Bytes) (blk : Exception ⊎ Json Double) (ss : TxSearchState Double)
      → IsResult query ss
      → Leaves query (block_from fl a node hash blk ss)
  unfolding block_from block_fields
  block_from-Leaves query hash (inl e) ss r = record { result = r }
  block_from-Leaves query hash (inr blk) ss r =
      if-Leaves
        (contains (codes "tx") blk
          && is_array (index (codes "tx") blk)
          && not (is_empty (index (codes "tx") blk)))
        (with_coinbase-Leaves query _ _ r) (record { result = r })

  fetch_block-Leaves :
      (query hash : Bytes) (ss : TxSearchState Double)
      → IsResult query ss
      → Leaves query (fetch_block fl a node hash ss)
  unfolding fetch_block
  fetch_block-Leaves query hash ss r = block_from-Leaves query hash _ ss r

  block_of_hash-Leaves :
      (query : Bytes) (v : Exception ⊎ Json Double) (ss : TxSearchState Double)
      → IsResult query ss
      → Leaves query (block_of_hash fl a node v ss)
  unfolding block_of_hash
  block_of_hash-Leaves query (inl e) ss r = record { result = r }
  block_of_hash-Leaves query (inr (string hash)) ss r = fetch_block-Leaves query hash ss r
  block_of_hash-Leaves query (inr _) ss r = record { result = r }

  search_height-Leaves :
      (query : Bytes) (h : Outcome ℤ) (ss : TxSearchState Double)
      → IsResult query ss
      → Leaves query (search_height fl a node h ss)
  unfolding search_height
  search_height-Leaves query (ok height) ss r = block_of_hash-Leaves query _ ss r
  search_height-Leaves query (throw e) ss r = record { result = r }
  search_height-Leaves query out_of_fuel ss r = record { result = r }

  with_vins-IsResult :
      (query : Bytes) (tx : Json Double) (ss : TxSearchState Double)
      → IsResult query ss
      → IsResult query (with_vins fl a tx ss)
  unfolding with_vins
  with_vins-IsResult query tx ss r =
      if-IsResult (contains (codes "vin") tx && is_array (index (codes "vin") tx))
        (record ss { vin_list = _; vin_count = _ }) ss r r

  with_vouts-IsResult :
      (query : Bytes) (tx : Json Double) (ss : TxSearchState Double)
      → IsResult query ss
      → IsResult query (with_vouts fl a tx ss)
  unfolding with_vouts
  with_vouts-IsResult query tx ss r =
      if-IsResult (contains (codes "vout") tx && is_array (index (codes "vout") tx))
        (record ss { vout_list = _; vout_count = _; total_output = _ }) ss r r

  confirmed-IsResult :
      (query : Bytes) (tip : ℤ) (tx : Json Double) (ss : TxSearchState Double)
      → IsResult query ss
      → IsResult query (confirmed_result fl a tip tx ss)
  unfolding confirmed_result tx_fields
  confirmed-IsResult query tip tx ss r =
      with_vouts-IsResult query tx _ (with_vins-IsResult query tx (tx_fields fl a tip tx ss) r)

  search_tx-Leaves :
      (query : Bytes) (tip : ℤ) (tx : Exception ⊎ Json Double) (ss : TxSearchState Double)
      → IsResult query ss
      → Leaves query (search_tx fl a node query tip tx ss)
  unfolding search_tx
  search_tx-Leaves query tip (inr tx) ss r = record {
    result = confirmed-IsResult query tip tx ss r;
  }
  search_tx-Leaves query tip (inl e) ss r = fetch_block-Leaves query query ss r

  search_mempool-Leaves :
      (query : Bytes) (tip : ℤ) (entry : Exception ⊎ Json Double) (ss : TxSearchState Double)
      → IsResult query ss
      → Leaves query (search_mempool fl a node query tip entry ss)
  unfolding search_mempool mempool_result
  search_mempool-Leaves query tip (inr entry) ss r = record { result = r }
  search_mempool-Leaves query tip (inl e) ss r = search_tx-Leaves query tip _ ss r

  with_error-IsResult :
      (query : Bytes) (r : TxSearchState Double × Option Exception)
      → Leaves query r
      → IsResult query (with_error fl a node r)
  unfolding with_error
  with_error-IsResult query (ss, none) l = l.result
  with_error-IsResult query (ss, some e) l = l.result

  search-IsResult :
      (query : Bytes) (is_height : Bool) (tip : ℤ)
      → IsResult query (perform_tx_search fl a node query is_height tip)
  unfolding perform_tx_search
  search-IsResult query is_height tip = with_error-IsResult query _ (
      if-Leaves is_height (search_height-Leaves query (stoll query) _ new)
        (search_mempool-Leaves query tip _ _ new))
    where
      new : IsCore query query false (negsuc 0) (negsuc 0) (negsuc 0)
      new = record {
        same_txid = refl;
        over = refl;
        io_none = refl;
        input_none = refl;
        output_none = refl;
      }

  -- Whatever the node answers, the search ends with a result for its own query that is not shown as
  -- on its way and has no selection, so that every selection lies among its rows.
  pub perform_tx_search-Selected :
      (query : Bytes) (is_height : Bool) (tip : ℤ)
      → Selected (perform_tx_search fl a node query is_height tip)
        × ((perform_tx_search fl a node query is_height tip).txid ≡ query)
        × ((perform_tx_search fl a node query is_height tip).searching ≡ false)
  perform_tx_search-Selected query is_height tip =
      let r = search-IsResult query is_height tip in
      (result-Selected query _ r, r.same_txid, r.over)

  -- With this search for its search, the Mempool tab is well formed in every state that it reaches.
  pub searching_tab-WellFormed :
      {tab : MempoolTab Double}
      → Reaches a.zero_double
          (perform_tx_search fl a node)
          (new_tab a.zero_double (perform_tx_search fl a node))
          tab
      → WellFormed tab
  searching_tab-WellFormed r =
      tab-WellFormed a.zero_double (perform_tx_search fl a node)
        (λ query is_height tip. (perform_tx_search-Selected query is_height tip).0) r
