-- ===== src/Search.antt =====
-- src/search.cpp and `extract_miner` of src/format.hpp: the search for a transaction or a block.
pub mod Miner
pub mod Fields
pub mod Kinds
pub mod Fallback
mod Tests
use bitcoin_tui.Base.{
  Bool, true, ◌&&◌, not, [], Bytes, codes, em_dash, if◌then◌else◌, Option, none, some, ◌⊎◌, inl,
  inr, ℤ, pos, stoll, Outcome, ok, throw, out_of_fuel, Exception, json_exception, rpc_error,
}
use bitcoin_tui.Json.Value.{
  Floats, Json, Items, null, bool, int, string, array, object, no_items, item,
}
use bitcoin_tui.Json.Access.{is_array, is_empty, index, contains, elements}
use bitcoin_tui.Search.Miner.{extract_miner}
use bitcoin_tui.State.{TxSearchState, no_search}
use bitcoin_tui.Search.Fields.{
  Arithmetic, int_of, text_of, double_of, mempool_result, confirmed_result,
}

unfoldable pub what : {D : Type 0} → Arithmetic D → Exception → Bytes
what a (json_exception s) = s
what a (rpc_error s) = s
what a e = a.std_what e

-- `["result"]`, through the operator[](key) that is not const.
unfoldable pub result_of : {D : Type 0} → Exception ⊎ Json D → Exception ⊎ Json D
result_of (inl e) = inl e
result_of (inr null) = inr null
result_of (inr (object fs)) = inr (index (codes "result") (object fs))
result_of (inr v) = inl (json_exception (codes "operator[string] on non-object"))

-- `node` is what a call of search_rpc comes back with, for a method and its parameters.
module _ (fl : Floats) (a : Arithmetic fl.Double)
    (node : Bytes → Json fl.Double → Exception ⊎ Json fl.Double) where
  open fl use {Double}

  -- search_rpc.call(method, params)["result"]
  unfoldable pub answer : Bytes → Items Double → Exception ⊎ Json Double
  unfolding result_of
  answer method params = result_of (node method (array params))

  first_of : Items Double → Json Double
  first_of no_items = null
  first_of (item v vs) = v

  -- What the coinbase transaction says of the miner; nothing if it has no inputs.
  miner_of : Json Double → Bytes → Exception ⊎ Bytes
  unfolding extract_miner first_of
  miner_of coinbase_tx before =
      let vin = index (codes "vin") coinbase_tx in
      if contains (codes "vin") coinbase_tx && is_array vin && not (is_empty vin)
      then extract_miner (text_of fl a (codes "coinbase") [] (first_of (elements vin)))
      else inr before

  -- `catch (...) { result.blk_miner = "—"; }`
  miner_or_dash : Exception ⊎ Bytes → Bytes
  miner_or_dash (inl e) = em_dash
  miner_or_dash (inr miner) = miner

  miner_from : Exception ⊎ Json Double → Bytes → Bytes
  unfolding miner_or_dash miner_of
  miner_from (inl e) before = em_dash
  miner_from (inr coinbase_tx) before = miner_or_dash (miner_of coinbase_tx before)

  with_coinbase : Json Double → TxSearchState Double → TxSearchState Double × Option Exception
  unfolding miner_from answer
  with_coinbase (string txid) result = (
    record result {
      blk_miner =
          miner_from
            (answer (codes "getrawtransaction") (item (string txid) (item (bool true) no_items)))
            result.blk_miner;
      is_block = true;
      found = true;
    },
    none,
  )
  with_coinbase _ result = (result, some (json_exception (codes "get<string> on non-string")))

  block_fields : Bytes → Json Double → TxSearchState Double → TxSearchState Double
  block_fields hash blk result = record result {
    blk_hash = text_of fl a (codes "hash") hash blk;
    blk_height = int_of fl a (codes "height") blk;
    blk_time = int_of fl a (codes "time") blk;
    blk_ntx = int_of fl a (codes "nTx") blk;
    blk_size = int_of fl a (codes "size") blk;
    blk_weight = int_of fl a (codes "weight") blk;
    blk_difficulty = double_of fl a (codes "difficulty") blk;
    blk_confirmations = int_of fl a (codes "confirmations") blk;
  }

  -- fetch_block: the result as far as it got, and the exception that it left with.
  block_from :
      Bytes
      → Exception ⊎ Json Double
      → TxSearchState Double
      → TxSearchState Double × Option Exception
  unfolding block_fields with_coinbase first_of
  block_from hash (inl e) result = (result, some e)
  block_from hash (inr blk) result =
      let filled = block_fields hash blk result in
      let tx = index (codes "tx") blk in
      if contains (codes "tx") blk && is_array tx && not (is_empty tx)
      then with_coinbase (first_of (elements tx)) filled
      else (record filled { is_block = true; found = true }, none)

  unfoldable pub fetch_block :
      Bytes → TxSearchState Double → TxSearchState Double × Option Exception
  unfolding block_from answer
  fetch_block hash result =
      block_from hash (answer (codes "getblock") (item (string hash) (item (int (pos 1)) no_items)))
        result

  block_of_hash :
      Exception ⊎ Json Double → TxSearchState Double → TxSearchState Double × Option Exception
  unfolding fetch_block
  block_of_hash (inl e) result = (result, some e)
  block_of_hash (inr (string hash)) result = fetch_block hash result
  block_of_hash (inr v) result = (result, some (json_exception (codes "get<string> on non-string")))

  search_height : Outcome ℤ → TxSearchState Double → TxSearchState Double × Option Exception
  unfolding block_of_hash answer
  search_height (ok height) result =
      block_of_hash (answer (codes "getblockhash") (item (int height) no_items)) result
  search_height (throw e) result = (result, some e)
  search_height out_of_fuel result = (result, none)

  -- The second attempt and the third: as a transaction in a block, then as the hash of a block.
  search_tx :
      Bytes
      → ℤ
      → Exception ⊎ Json Double
      → TxSearchState Double
      → TxSearchState Double × Option Exception
  unfolding confirmed_result fetch_block
  search_tx query tip (inr tx) result = (confirmed_result fl a tip tx result, none)
  search_tx query tip (inl e) result = fetch_block query result

  -- The first attempt: in the mempool.
  search_mempool :
      Bytes
      → ℤ
      → Exception ⊎ Json Double
      → TxSearchState Double
      → TxSearchState Double × Option Exception
  unfolding mempool_result search_tx answer
  search_mempool query tip (inr entry) result = (mempool_result fl a entry result, none)
  search_mempool query tip (inl e) result =
      search_tx query tip
        (answer (codes "getrawtransaction") (item (string query) (item (bool true) no_items)))
        result

  -- `catch (const std::exception& e) { result.error = e.what(); }`
  with_error : TxSearchState Double × Option Exception → TxSearchState Double
  unfolding what
  with_error (result, none) = result
  with_error (result, some e) = record result { error = what a e }

  unfoldable pub perform_tx_search : Bytes → Bool → ℤ → TxSearchState Double
  unfolding with_error search_height search_mempool answer
  perform_tx_search query query_is_height tip =
      let result = record (no_search a.zero_double) { txid = query } in
      with_error (
        if query_is_height
        then search_height (stoll query) result
        else search_mempool query tip
            (answer (codes "getmempoolentry") (item (string query) no_items)) result)
