-- ===== src/Poll/Recent.antt =====
-- src/poll.cpp: what a poll leaves of the recent blocks and of the connection.
use bitcoin_tui.Base.{
  ℕ, zero, suc, ◌≤◌, true, false, Bool-cases, ◌&&◌, not, List, [], Bytes, codes, length, none, some,
  Option-cases, ◌⊎◌, inl, inr, ℤ, pos, ◌-ℤ◌, ltb_ℤ, Outcome, ok, throw, out_of_fuel, Exception, ◌≡◌,
  refl, ◌∙◌, arith,
}
use bitcoin_tui.Json.Value.{Floats, Json}
use bitcoin_tui.Json.Access.{elements, value, get_int64}
use bitcoin_tui.Search.Fields.{Arithmetic}
use bitcoin_tui.Poll.State.{AppState}
use bitcoin_tui.Poll.{
  PollDoubles, call_result, peers_of, is_connected, core_fields, core_update, private_update,
  with_txids, fetch_blocks, blocks_update, failed_update, same_ℤ, after_core, calls, with_calls,
  poll_rpc,
}

module _ (fl : Floats) (a : Arithmetic fl.Double) (d : PollDoubles fl.Double)
    (node : Bytes → Json fl.Double → Exception ⊎ Json fl.Double) (now_text : Bytes) where
  open fl use {Double}

  -- The node answers the four calls, with this tip and with peers that are read without an
  -- exception.
  pub record Answers (tip : ℤ) : Type 0 where
    pub bc : Json Double
    pub net : Json Double
    pub mp : Json Double
    pub pi : Json Double
    pub blockchain : call_result fl a d node now_text (codes "getblockchaininfo") ≡ inr bc
    pub network : call_result fl a d node now_text (codes "getnetworkinfo") ≡ inr net
    pub mempool : call_result fl a d node now_text (codes "getmempoolinfo") ≡ inr mp
    pub peers : call_result fl a d node now_text (codes "getpeerinfo") ≡ inr pi
    pub same_tip : value (get_int64 fl) (codes "blocks") (pos 0) bc ≡ tip
    pub readable : (peers_of fl a d node now_text (elements pi)).1 ≡ none

  fetch_blocks-few :
      (rounds : ℕ) (height : ℤ) → length (fetch_blocks fl a d node now_text rounds height) ≤ rounds
  unfolding fetch_blocks
  fetch_blocks-few zero height = omega arith
  fetch_blocks-few (suc rounds) height = ground (arith, fetch_blocks-few rounds (height -ℤ pos 1))

  with_txids-keeps :
      (r : Outcome (List Bytes)) (s : AppState Double)
      → ((with_txids fl a d node now_text r s).recent_blocks ≡ s.recent_blocks)
        × ((with_txids fl a d node now_text r s).blocks_fetched_at ≡ s.blocks_fetched_at)
        × ((with_txids fl a d node now_text r s).connected ≡ s.connected)
        × ((with_txids fl a d node now_text r s).error_message ≡ s.error_message)
  unfolding with_txids
  with_txids-keeps (ok txids) s = (refl, refl, refl, refl)
  with_txids-keeps _ s = (refl, refl, refl, refl)

  pub private_update-keeps :
      (r : Exception ⊎ Json Double) (s : AppState Double)
      → ((private_update fl a d node now_text r s).recent_blocks ≡ s.recent_blocks)
        × ((private_update fl a d node now_text r s).blocks_fetched_at ≡ s.blocks_fetched_at)
        × ((private_update fl a d node now_text r s).connected ≡ s.connected)
        × ((private_update fl a d node now_text r s).error_message ≡ s.error_message)
  unfolding private_update
  private_update-keeps (inl e) s = (refl, refl, refl, refl)
  private_update-keeps (inr pbinfo) s = with_txids-keeps _ s

  -- What the tabs rely on: the node is connected and there is no error, or it is not; and there are no
  -- more than twenty recent blocks.
  pub record IsPolled (s : AppState Double) : Type 0 where
    pub status : ((s.connected ≡ true) × (s.error_message ≡ [])) ⊎ (s.connected ≡ false)
    pub few : length s.recent_blocks ≤ 20

  after_core-IsPolled :
      (cached_tip new_tip : ℤ) (s : AppState Double)
      → s.connected ≡ true
      → s.error_message ≡ []
      → length s.recent_blocks ≤ 20
      → IsPolled (after_core fl a d node now_text cached_tip new_tip (s, none))
  unfolding after_core blocks_update
  after_core-IsPolled cached_tip new_tip s c m h =
      let r = call_result fl a d node now_text (codes "getprivatebroadcastinfo") in
      let k = private_update-keeps r s in
      elim (Bool-cases
        (not (same_ℤ fl a d node now_text new_tip cached_tip) && ltb_ℤ (pos 0) new_tip)) [
          | inl e ↦
              rw e (record { status = inl (k.2 ∙ c, k.3 ∙ m); few = fetch_blocks-few 20 new_tip })
          | inr e ↦ rw e (record { status = inl (k.2 ∙ c, k.3 ∙ m); few = rw k.0 h })
        ]

  abbrev pub new_tip_of : Json Double → ℤ
  new_tip_of bc = value (get_int64 fl) (codes "blocks") (pos 0) bc

  -- The state when the core is in it.
  abbrev pub core :
      Json Double → Json Double → Json Double → Json Double → AppState Double → AppState Double
  core bc net mp pi s = record (core_fields fl a d node now_text bc net mp pi s) {
    connected = true;
    error_message = [];
    last_update = now_text;
  }

  pub core_fields-keeps :
      (bc net mp pi : Json Double) (s : AppState Double)
      → ((core_fields fl a d node now_text bc net mp pi s).recent_blocks ≡ s.recent_blocks)
        × ((core_fields fl a d node now_text bc net mp pi s).blocks_fetched_at
            ≡ s.blocks_fetched_at)
  unfolding core_fields
  core_fields-keeps bc net mp pi s = (refl, refl)

  pub with_calls-core :
      (bc net mp pi : Json Double) (s : AppState Double)
      → (peers_of fl a d node now_text (elements pi)).1 ≡ none
      → with_calls fl a d node now_text (ok (bc, net, mp, pi)) s
        ≡ after_core fl a d node now_text s.blocks_fetched_at
            (new_tip_of bc)
            (core bc net mp pi s, none)
  with_calls-core bc net mp pi s e = unfold with_calls core_update is_connected in rw e refl

  with_calls-peers :
      (bc net mp pi : Json Double) (x : Exception) (s : AppState Double)
      → (peers_of fl a d node now_text (elements pi)).1 ≡ some x
      → with_calls fl a d node now_text (ok (bc, net, mp, pi)) s
        ≡ failed_update fl a d node now_text x (core_fields fl a d node now_text bc net mp pi s)
  with_calls-peers bc net mp pi x s e =
      unfold with_calls core_update is_connected after_core in rw e refl

  core-IsPolled :
      (bc net mp pi : Json Double) (s : AppState Double)
      → length s.recent_blocks ≤ 20
      → IsPolled (with_calls fl a d node now_text (ok (bc, net, mp, pi)) s)
  core-IsPolled bc net mp pi s h =
      let few : length (core_fields fl a d node now_text bc net mp pi s).recent_blocks ≤ 20 =
        rw (core_fields-keeps bc net mp pi s).0 h in
      elim (Option-cases (peers_of fl a d node now_text (elements pi)).1) [
        | inl e ↦ rw (with_calls-core bc net mp pi s e) (
            after_core-IsPolled s.blocks_fetched_at (new_tip_of bc) (core bc net mp pi s) refl refl
              few)
        | inr (x, e) ↦
            rw (with_calls-peers bc net mp pi x s e)
              (unfold failed_update in record { status = inr refl; few = few })
      ]

  -- Whatever the node answers to any call, a poll keeps two facts: the node is connected and there is
  -- no error message, or it is not connected; and there are at most twenty recent blocks.
  pub poll_rpc-IsPolled :
      (s : AppState Double) → IsPolled s → IsPolled (poll_rpc fl a d node now_text s)
  unfolding poll_rpc
  poll_rpc-IsPolled s h = with-IsPolled (calls fl a d node now_text)
    where
      with-IsPolled :
          (r : Outcome (Json Double × Json Double × Json Double × Json Double))
          → IsPolled (with_calls fl a d node now_text r s)
      with-IsPolled (ok (bc, net, mp, pi)) = core-IsPolled bc net mp pi s h.few
      with-IsPolled (throw e) =
          unfold with_calls failed_update in record { status = inr refl; few = h.few }
      with-IsPolled out_of_fuel = unfold with_calls in h
