-- ===== src/Poll.antt =====
-- src/poll.cpp: one poll of the node, update by update.
pub mod State
mod Core
pub mod Recent
pub mod Tips
mod Tests
unfoldable pub use Core.*
use bitcoin_tui.Base.{
  ℕ, zero, suc, Bool, true, false, ◌&&◌, not, List, [], ◌∷◌, ◌++◌, Bytes, codes, em_dash,
  if◌then◌else◌, Option, none, some, ◌⊎◌, inl, inr, ℤ, pos, negsuc, ◌-ℤ◌, leb_ℤ, ltb_ℤ, Outcome, ok,
  throw, out_of_fuel, outcome_of, Exception, bind,
}
use bitcoin_tui.State.{empty}
use bitcoin_tui.Json.Value.{Floats, Json, Items, null, bool, int, string, array, no_items, item}
use bitcoin_tui.Json.Access.{
  get_int64, get_int, get_double, get_string, get_bool, is_array, is_object, is_string, is_number,
  is_bool, index, contains, elements, value, or_default, initializer_list,
}
use bitcoin_tui.Search.{what, result_of}
use bitcoin_tui.Search.Fields.{Arithmetic}
use bitcoin_tui.Poll.State.{BlockStat, PeerInfo, AppState}

-- `node` is what a call comes back with, for a method and its parameters, and `now_text` is
-- now_string().
module _ (fl : Floats) (a : Arithmetic fl.Double) (d : PollDoubles fl.Double)
    (node : Bytes → Json fl.Double → Exception ⊎ Json fl.Double) (now_text : Bytes) where
  open fl use {Double}

  txid_of : Json Double → Outcome (List Bytes)
  txid_of entry =
      if is_string entry
      then bind (get_string entry) (λ txid. ok (txid ∷ []))
      else if is_object entry && contains (codes "txid") entry
      then bind (get_string (index (codes "txid") entry)) (λ txid. ok (txid ∷ []))
      else ok []

  txids_of : Items Double → Outcome (List Bytes)
  unfolding txid_of
  txids_of no_items = ok []
  txids_of (item entry entries) =
      bind (txid_of entry) (λ txids. bind (txids_of entries) (λ more. ok (txids ++ more)))

  pub with_txids : Outcome (List Bytes) → AppState Double → AppState Double
  with_txids (ok txids) s = record s { privbcast_txids = txids }
  with_txids _ s = s

  -- `catch (...) {}`
  unfoldable pub private_update : Exception ⊎ Json Double → AppState Double → AppState Double
  unfolding with_txids txids_of
  private_update (inl e) s = s
  private_update (inr pbinfo) s = with_txids (txids_of (elements pbinfo)) s

  pub block_of : Json Double → BlockStat
  block_of bs = record {
    height = int64_of fl a d node now_text (codes "height") bs;
    txs = int64_of fl a d node now_text (codes "txs") bs;
    total_size = int64_of fl a d node now_text (codes "total_size") bs;
    total_weight = int64_of fl a d node now_text (codes "total_weight") bs;
    time = int64_of fl a d node now_text (codes "time") bs;
  }

  -- The parameters of getblockstats.
  stat_params : ℤ → Json Double
  stat_params height = initializer_list (
      item (int height) (
        item
          (initializer_list (
            item (string (codes "height")) (
              item (string (codes "txs")) (
                item (string (codes "total_size"))
                  (item (string (codes "total_weight")) (item (string (codes "time")) no_items))))))
          no_items))

  unfoldable pub stats_at : ℤ → Exception ⊎ Json Double
  unfolding stat_params
  stats_at height = result_of (node (codes "getblockstats") (stat_params height))

  -- The rounds that are left, and the height of the next.
  unfoldable pub fetch_blocks : ℕ → ℤ → List BlockStat
  unfolding block_of
  fetch_blocks zero height = []
  fetch_blocks (suc rounds) height =
      let more = fetch_blocks rounds (height -ℤ pos 1) in
      if leb_ℤ (pos 0) height
      then elim (stats_at height) [ inl e ↦ [] | inr bs ↦ block_of bs ∷ more ]
      else []

  unfoldable pub blocks_update : ℤ → List BlockStat → AppState Double → AppState Double
  blocks_update new_tip fresh_blocks s =
      let slides = not (empty s.recent_blocks) && not (empty fresh_blocks) in
      record s {
        block_anim_old = if slides then s.recent_blocks else s.block_anim_old;
        block_anim_frame = if slides then pos 0 else s.block_anim_frame;
        block_anim_active = if slides then true else s.block_anim_active;
        recent_blocks = fresh_blocks;
        blocks_fetched_at = new_tip;
      }

  -- `catch (const std::exception& e)`
  unfoldable pub failed_update : Exception → AppState Double → AppState Double
  unfolding what
  failed_update e s = record s {
    connected = false;
    error_message = what a e;
    last_update = now_text;
  }

  pub same_ℤ : ℤ → ℤ → Bool
  same_ℤ x y = leb_ℤ x y && leb_ℤ y x

  -- The rest of the poll, when the core is in the state.
  pub after_core : ℤ → ℤ → AppState Double × Option Exception → AppState Double
  unfolding private_update call_result fetch_blocks stats_at blocks_update failed_update same_ℤ
  after_core cached_tip new_tip (s, some e) = failed_update e s
  after_core cached_tip new_tip (s, none) =
      let with_private =
        private_update (call_result fl a d node now_text (codes "getprivatebroadcastinfo")) s in
      if not (same_ℤ new_tip cached_tip) && ltb_ℤ (pos 0) new_tip
      then blocks_update new_tip (fetch_blocks 20 new_tip) with_private
      else with_private

  -- The four calls, in their order.
  calls : Outcome (Json Double × Json Double × Json Double × Json Double)
  unfolding call_result
  calls = bind (outcome_of (call_result fl a d node now_text (codes "getblockchaininfo"))) (λ bc.
      bind (outcome_of (call_result fl a d node now_text (codes "getnetworkinfo"))) (λ net.
        bind (outcome_of (call_result fl a d node now_text (codes "getmempoolinfo"))) (λ mp.
          bind (outcome_of (call_result fl a d node now_text (codes "getpeerinfo")))
            (λ pi. ok (bc, net, mp, pi)))))

  pub with_calls :
      Outcome (Json Double × Json Double × Json Double × Json Double)
      → AppState Double
      → AppState Double
  unfolding core_update after_core failed_update
  with_calls (ok (bc, net, mp, pi)) s =
      after_core s.blocks_fetched_at (int64_of fl a d node now_text (codes "blocks") bc)
        (core_update fl a d node now_text bc net mp pi s)
  with_calls (throw e) s = failed_update e s
  with_calls out_of_fuel s = s

  unfoldable pub poll_rpc : AppState Double → AppState Double
  unfolding calls with_calls
  poll_rpc s = with_calls calls s
