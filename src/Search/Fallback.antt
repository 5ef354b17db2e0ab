-- ===== src/Search/Fallback.antt =====
-- src/search.cpp: which of the three attempts a search shows.
use bitcoin_tui.Base.{
  Bool, true, false, ◌&&◌, not, Bytes, codes, if◌then◌else◌, Option, ◌⊎◌, inl, inr, ℤ, pos,
  Exception, ◌≡◌, refl,
}
use bitcoin_tui.Json.Value.{
  Floats, Json, null, bool, int, float, string, array, object, no_items, item,
}
use bitcoin_tui.Json.Access.{contains, is_array, is_empty, is_string, index, elements}
use bitcoin_tui.State.{
  TxSearchState, no_search, TxResultKind, mempool_kind, confirmed_kind, block_kind, error_kind,
  classify_result,
}
use bitcoin_tui.Search.{
  answer, with_coinbase, first_of, block_fields, block_from, fetch_block, search_tx, search_mempool,
  with_error, perform_tx_search,
}
use bitcoin_tui.Search.Fields.{
  Arithmetic, mempool_result, with_vins, with_vouts, tx_fields, confirmed_result,
}

-- Whether a search is on its way, and whether it found a block.
pub record Flags {D : Type 0} (searching is_block : Bool) (ss : TxSearchState D) : Type 0 where
  pub same_searching : ss.searching ≡ searching
  pub same_block : ss.is_block ≡ is_block

if-Flags :
    {D : Type 0} {x y : Bool} (b : Bool) (s t : TxSearchState D)
    → Flags x y s
    → Flags x y t
    → Flags x y (if b then s else t)
if-Flags true s t hs ht = hs
if-Flags false s t hs ht = ht

module _ (fl : Floats) (a : Arithmetic fl.Double)
    (node : Bytes → Json fl.Double → Exception ⊎ Json fl.Double) where
  open fl use {Double}

  -- A block whose list of transactions, if it has one, begins with the id of the coinbase.
  readable : Json Double → Bool
  unfolding first_of
  readable blk =
      if contains (codes "tx") blk
        && is_array (index (codes "tx") blk)
        && not (is_empty (index (codes "tx") blk))
      then is_string (first_of fl a node (elements (index (codes "tx") blk)))
      else true

  pub block_shown : Exception ⊎ Json Double → TxResultKind
  block_shown (inl e) = error_kind
  block_shown (inr blk) = if readable blk then block_kind else error_kind

  -- The first answer that is no exception decides, in the order mempool, transaction, block.
  pub first_answer :
      Exception ⊎ Json Double → Exception ⊎ Json Double → Exception ⊎ Json Double → TxResultKind
  first_answer (inr entry) tx blk = mempool_kind
  first_answer (inl e) (inr tx) blk = confirmed_kind
  first_answer (inl e) (inl e') blk = block_shown blk

  coinbase-kind :
      (v : Json Double) (ss : TxSearchState Double)
      → ss.searching ≡ false
      → ss.found ≡ false
      → classify_result (with_error fl a node (with_coinbase fl a node v ss))
        ≡ (if is_string v then block_kind else error_kind)
  unfolding classify_result with_error with_coinbase
  coinbase-kind (string txid) ss s f = rw s refl
  coinbase-kind null ss s f = rw (s, f) refl
  coinbase-kind (bool b) ss s f = rw (s, f) refl
  coinbase-kind (int i) ss s f = rw (s, f) refl
  coinbase-kind (float d) ss s f = rw (s, f) refl
  coinbase-kind (array xs) ss s f = rw (s, f) refl
  coinbase-kind (object fs) ss s f = rw (s, f) refl

  if-kind :
      (b c : Bool) (r s : TxSearchState Double × Option Exception)
      → classify_result (with_error fl a node r) ≡ (if c then block_kind else error_kind)
      → classify_result (with_error fl a node s) ≡ block_kind
      → classify_result (with_error fl a node (if b then r else s))
        ≡ (if (if b then c else true) then block_kind else error_kind)
  if-kind true c r s hr hs = hr
  if-kind false c r s hr hs = hs

  block-kind :
      (hash : Bytes) (blk : Exception ⊎ Json Double) (ss : TxSearchState Double)
      → ss.searching ≡ false
      → ss.found ≡ false
      → classify_result (with_error fl a node (block_from fl a node hash blk ss)) ≡ block_shown blk
  unfolding classify_result with_error block_from block_fields block_shown readable
  block-kind hash (inl e) ss s f = rw (s, f) refl
  block-kind hash (inr blk) ss s f =
      let tx = index (codes "tx") blk in
      let v = first_of fl a node (elements tx) in
      let filled = block_fields fl a node hash blk ss in
      if-kind (contains (codes "tx") blk && is_array tx && not (is_empty tx)) (is_string v) _ _
        (coinbase-kind v filled s f) (rw s refl)

  with_vins-Flags :
      {x y : Bool} (tx : Json Double) (ss : TxSearchState Double)
      → Flags x y ss
      → Flags x y (with_vins fl a tx ss)
  unfolding with_vins
  with_vins-Flags tx ss h =
      if-Flags (contains (codes "vin") tx && is_array (index (codes "vin") tx))
        (record ss { vin_list = _; vin_count = _ }) ss
        (record { same_searching = h.same_searching; same_block = h.same_block }) h

  with_vouts-Flags :
      {x y : Bool} (tx : Json Double) (ss : TxSearchState Double)
      → Flags x y ss
      → Flags x y (with_vouts fl a tx ss)
  unfolding with_vouts
  with_vouts-Flags tx ss h =
      if-Flags (contains (codes "vout") tx && is_array (index (codes "vout") tx))
        (record ss { vout_list = _; vout_count = _; total_output = _ }) ss
        (record { same_searching = h.same_searching; same_block = h.same_block }) h

  tx-kind :
      (query : Bytes) (tip : ℤ) (tx : Exception ⊎ Json Double) (ss : TxSearchState Double)
      (e : Exception)
      → ss.searching ≡ false
      → ss.found ≡ false
      → ss.is_block ≡ false
      → classify_result (with_error fl a node (search_tx fl a node query tip tx ss))
        ≡ first_answer (inl e) tx (
            answer fl a node (codes "getblock") (item (string query) (item (int (pos 1)) no_items)))
  unfolding classify_result with_error search_tx confirmed_result tx_fields fetch_block first_answer
  tx-kind query tip (inr tx) ss e s f b =
      let filled = tx_fields fl a tip tx ss in
      let flags =
        with_vouts-Flags tx _
          (with_vins-Flags tx filled (record { same_searching = s; same_block = b })) in
      rw (flags.same_searching, flags.same_block) refl
  tx-kind query tip (inl e') ss e s f b = block-kind query _ ss s f

  -- A query that is no height is shown as what the first of three attempts finds that the node
  -- answers: as a transaction in the mempool, else as one in a block, else as a block; and as an
  -- error if the node refuses all three, or answers with a block that does not begin with the id of
  -- its coinbase.
  pub perform_tx_search_lem :
      (query : Bytes) (tip : ℤ)
      → classify_result (perform_tx_search fl a node query false tip)
        ≡ first_answer
            (answer fl a node (codes "getmempoolentry") (item (string query) no_items))
            (answer fl a node
              (codes "getrawtransaction")
              (item (string query) (item (bool true) no_items)))
            (answer fl a node
              (codes "getblock")
              (item (string query) (item (int (pos 1)) no_items)))
  unfolding perform_tx_search
  perform_tx_search_lem query tip =
      from_mempool (answer fl a node (codes "getmempoolentry") (item (string query) no_items))
    where
      from_mempool :
          (entry : Exception ⊎ Json Double)
          → classify_result (
              with_error fl a node (
                search_mempool fl a node query tip entry
                  (record (no_search a.zero_double) { txid = query })))
            ≡ first_answer entry
                (answer fl a node
                  (codes "getrawtransaction")
                  (item (string query) (item (bool true) no_items)))
                (answer fl a node
                  (codes "getblock")
                  (item (string query) (item (int (pos 1)) no_items)))
      from_mempool (inr entry) =
          unfold classify_result with_error search_mempool mempool_result first_answer in refl
      from_mempool (inl e) = unfold search_mempool in tx-kind query tip _ _ e refl refl refl
