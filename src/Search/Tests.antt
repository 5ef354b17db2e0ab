-- ===== src/Search/Tests.antt =====
-- Runs of the search of src/search.cpp, with doubles kept as their text.
use bitcoin_tui.Base.{
  true, false, Bytes, codes, ◌⊎◌, inl, inr, pos, Exception, rpc_error, ◌≡◌, refl,
}
use bitcoin_tui.Json.Value.{Json, int, string, item, no_items, bool}
use bitcoin_tui.Json.Tests.{text_floats}
use bitcoin_tui.State.{classify_result}
use bitcoin_tui.Mempool.Selection.{WellFormed}
use bitcoin_tui.Mempool.Steps.{new_tab, here}
use bitcoin_tui.Search.Miner.{extract_miner, miner_loop, stoi_16}
use bitcoin_tui.Search.{answer, perform_tx_search}
use bitcoin_tui.Search.Fields.{Arithmetic}
use bitcoin_tui.Search.Kinds.{searching_tab-WellFormed}
use bitcoin_tui.Search.Fallback.{first_answer, perform_tx_search_lem}

abbrev text_arithmetic : Arithmetic Bytes
text_arithmetic = record {
  zero_double = codes "0.0";
  plus = λ x y. x;
  rate = λ x n. x;
  std_what = λ e. codes "stoll";
}

-- A node that refuses every call.
refuses : Bytes → Json Bytes → Exception ⊎ Json Bytes
refuses method params = inl (rpc_error (codes "Transaction not in mempool"))

extract_miner_run : extract_miner (codes "03a4b1c22f466f756e6472792f") ≡ inr (codes "Foundry")
unfolding extract_miner miner_loop stoi_16
extract_miner_run = refl

searching_tab-WellFormed_example :
    WellFormed (new_tab (codes "0.0") (perform_tx_search text_floats text_arithmetic refuses))
searching_tab-WellFormed_example = searching_tab-WellFormed text_floats text_arithmetic refuses here

perform_tx_search_lem_example :
    classify_result
      (perform_tx_search text_floats text_arithmetic refuses (codes "ab") false (pos 9))
    ≡ first_answer text_floats text_arithmetic refuses
        (answer text_floats text_arithmetic refuses
          (codes "getmempoolentry")
          (item (string (codes "ab")) no_items))
        (answer text_floats text_arithmetic refuses
          (codes "getrawtransaction")
          (item (string (codes "ab")) (item (bool true) no_items)))
        (answer text_floats text_arithmetic refuses
          (codes "getblock")
          (item (string (codes "ab")) (item (int (pos 1)) no_items)))
perform_tx_search_lem_example =
    perform_tx_search_lem text_floats text_arithmetic refuses (codes "ab") (pos 9)
