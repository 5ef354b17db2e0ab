-- ===== src/Search/Fields.antt =====
-- src/search.cpp: what perform_tx_search reads of the reply for a transaction.
use bitcoin_tui.Base.{
  true, false, ◌&&◌, List, [], ◌∷◌, Bytes, codes, length, if◌then◌else◌, ℤ, pos, ◌+ℤ◌, ◌-ℤ◌, ltb_ℤ,
  Exception,
}
use bitcoin_tui.Json.Value.{Floats, Json, Items, no_items, item}
use bitcoin_tui.Json.Access.{
  get_int64, get_int, get_double, get_string, is_array, is_object, index, contains, elements, value,
}
use bitcoin_tui.State.{TxVin, TxVout, TxSearchState}

-- What the search does with doubles, and what() of the standard library's exceptions.
pub record Arithmetic (D : Type 0) : Type 0 where
  pub zero_double : D
  pub plus : D → D → D
  -- fee * 1e8 / vsize
  pub rate : D → ℤ → D
  pub std_what : Exception → Bytes

module _ (fl : Floats) (a : Arithmetic fl.Double) where
  open fl use {Double}

  abbrev pub int_of : Bytes → Json Double → ℤ
  int_of key v = value (get_int64 fl) key (pos 0) v

  abbrev pub text_of : Bytes → Bytes → Json Double → Bytes
  text_of key def v = value get_string key def v

  abbrev pub double_of : Bytes → Json Double → Double
  double_of key v = value (get_double fl) key a.zero_double v

  fee_of : Json Double → Double
  fee_of entry =
      let fees = index (codes "fees") entry in
      if contains (codes "fees") entry && is_object fees
      then double_of (codes "base") fees
      else double_of (codes "fee") entry

  unfoldable pub mempool_result : Json Double → TxSearchState Double → TxSearchState Double
  unfolding fee_of
  mempool_result entry result =
      let vsize = int_of (codes "vsize") entry in
      record result {
        fee = fee_of entry;
        vsize = vsize;
        weight = int_of (codes "weight") entry;
        ancestors = int_of (codes "ancestorcount") entry;
        descendants = int_of (codes "descendantcount") entry;
        entry_time = int_of (codes "time") entry;
        fee_rate = if ltb_ℤ (pos 0) vsize then a.rate (fee_of entry) vsize else result.fee_rate;
        confirmed = false;
        found = true;
      }

  vin_of : Json Double → TxVin
  vin_of inp =
      if contains (codes "coinbase") inp
      then record { txid = []; vout = pos 0; is_coinbase = true }
      else record {
        txid = text_of (codes "txid") [] inp;
        vout = value (get_int fl) (codes "vout") (pos 0) inp;
        is_coinbase = false;
      }

  vins_of : Items Double → List TxVin
  unfolding vin_of
  vins_of no_items = []
  vins_of (item inp inps) = vin_of inp ∷ vins_of inps

  vout_of : Json Double → TxVout Double
  vout_of out =
      let spk = index (codes "scriptPubKey") out in
      let scripted = contains (codes "scriptPubKey") out in
      record {
        value = double_of (codes "value") out;
        type = if scripted then text_of (codes "type") [] spk else [];
        address =
            if scripted && contains (codes "address") spk
            then text_of (codes "address") [] spk
            else [];
      }

  vouts_of : Items Double → List (TxVout Double)
  unfolding vout_of
  vouts_of no_items = []
  vouts_of (item out outs) = vout_of out ∷ vouts_of outs

  sum_of : Double → List (TxVout Double) → Double
  sum_of total [] = total
  sum_of total (v ∷ vouts) = sum_of (a.plus total v.value) vouts

  unfoldable pub with_vins : Json Double → TxSearchState Double → TxSearchState Double
  unfolding vins_of
  with_vins tx result =
      let vins = vins_of (elements (index (codes "vin") tx)) in
      if contains (codes "vin") tx && is_array (index (codes "vin") tx)
      then record result { vin_list = vins; vin_count = pos (length vins) }
      else result

  unfoldable pub with_vouts : Json Double → TxSearchState Double → TxSearchState Double
  unfolding vouts_of sum_of
  with_vouts tx result =
      let vouts = vouts_of (elements (index (codes "vout") tx)) in
      if contains (codes "vout") tx && is_array (index (codes "vout") tx)
      then record result {
        vout_list = vouts;
        vout_count = pos (length vouts);
        total_output = sum_of result.total_output vouts;
      }
      else result

  unfoldable pub tx_fields : ℤ → Json Double → TxSearchState Double → TxSearchState Double
  tx_fields tip tx result =
      let confirmations = int_of (codes "confirmations") tx in
      record result {
        vsize = int_of (codes "vsize") tx;
        weight = int_of (codes "weight") tx;
        blockhash = text_of (codes "blockhash") [] tx;
        confirmations = confirmations;
        blocktime = int_of (codes "blocktime") tx;
        block_height =
            if ltb_ℤ (pos 0) tip && ltb_ℤ (pos 0) confirmations
            then tip -ℤ confirmations +ℤ pos 1
            else result.block_height;
      }

  unfoldable pub confirmed_result : ℤ → Json Double → TxSearchState Double → TxSearchState Double
  unfolding with_vins with_vouts tx_fields
  confirmed_result tip tx result = record (with_vouts tx (with_vins tx (tx_fields tip tx result))) {
    confirmed = true;
    found = true;
  }
