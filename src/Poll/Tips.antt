-- ===== src/Poll/Tips.antt =====
-- src/poll.cpp: block statistics are fetched once for each tip.
use bitcoin_tui.Base.{
  positive, pred_pos, nonneg, ℕ, zero, suc, ◌≤◌, true, false, List, [], ◌∷◌, Bytes, codes, map,
  none, ◌⊎◌, inl, inr, ℤ, pos, negsuc, ok, Exception, ◌≡◌, ◌≢◌, refl, ◌∙◌, ap, sym, arith,
}
use bitcoin_tui.Json.Value.{Floats, Json}
use bitcoin_tui.Json.Access.{value, get_int64}
use bitcoin_tui.Search.Fields.{Arithmetic}
use bitcoin_tui.Poll.State.{BlockStat, AppState}
use bitcoin_tui.Poll.Recent.{
  Answers, core, with_calls-core, core_fields-keeps, private_update-keeps,
}
use bitcoin_tui.Poll.{
  PollDoubles, call_result, block_of, stats_at, fetch_blocks, blocks_update, same_ℤ, after_core,
  calls, with_calls, poll_rpc,
}

-- The heights from `height` down, at most so many.
abbrev pub count_down : ℕ → ℕ → List ℤ
count_down zero height = []
count_down (suc rounds) zero = pos 0 ∷ []
count_down (suc rounds) (suc height) = pos (suc height) ∷ count_down rounds height

module _ (fl : Floats) (a : Arithmetic fl.Double) (d : PollDoubles fl.Double)
    (node : Bytes → Json fl.Double → Exception ⊎ Json fl.Double) (now_text : Bytes) where
  open fl use {Double}

  calls-ok :
      (tip : ℤ) (ans : Answers fl a d node now_text tip)
      → calls fl a d node now_text ≡ ok (ans.bc, ans.net, ans.mp, ans.pi)
  unfolding calls
  calls-ok tip ans = rw (ans.blockchain, ans.network, ans.mempool, ans.peers) refl

  poll_rpc-core :
      (tip : ℤ) (ans : Answers fl a d node now_text tip) (s : AppState Double)
      → poll_rpc fl a d node now_text s
        ≡ after_core fl a d node now_text s.blocks_fetched_at tip
            (core fl a d node now_text ans.bc ans.net ans.mp ans.pi s, none)
  unfolding poll_rpc
  poll_rpc-core tip ans s =
      ap (λ r. with_calls fl a d node now_text r s) (calls-ok tip ans)
      ∙ with_calls-core fl a d node now_text ans.bc ans.net ans.mp ans.pi s ans.readable
      ∙ ap
          (λ t.
            after_core fl a d node now_text s.blocks_fetched_at t
              (core fl a d node now_text ans.bc ans.net ans.mp ans.pi s, none))
          ans.same_tip

  same_ℤ-eq : (x y : ℤ) → x ≢ y → same_ℤ fl a d node now_text x y ≡ false
  unfolding same_ℤ
  same_ℤ-eq (pos x) (pos y) h = ground (arith, h)
  same_ℤ-eq (pos x) (negsuc y) h = ground arith
  same_ℤ-eq (negsuc x) (pos y) h = ground arith
  same_ℤ-eq (negsuc x) (negsuc y) h = ground (arith, h)

  same_ℤ-refl : (x : ℤ) → same_ℤ fl a d node now_text x x ≡ true
  unfolding same_ℤ
  same_ℤ-refl (pos x) = ground arith
  same_ℤ-refl (negsuc x) = ground arith

  poll_rpc-new_tip :
      (n : ℕ) (ans : Answers fl a d node now_text (pos (suc n))) (s : AppState Double)
      → s.blocks_fetched_at ≢ pos (suc n)
      → ((poll_rpc fl a d node now_text s).recent_blocks
          ≡ fetch_blocks fl a d node now_text 20 (pos (suc n)))
        × ((poll_rpc fl a d node now_text s).blocks_fetched_at ≡ pos (suc n))
  poll_rpc-new_tip n ans s h = rw (poll_rpc-core (pos (suc n)) ans s) (
      unfold after_core blocks_update in
      rw (same_ℤ-eq (pos (suc n)) s.blocks_fetched_at (λ e. h (sym e)), positive n) (refl, refl))

  poll_rpc-same_tip :
      (tip : ℤ) (ans : Answers fl a d node now_text tip) (s : AppState Double)
      → tip ≡ s.blocks_fetched_at
      → (poll_rpc fl a d node now_text s).recent_blocks ≡ s.recent_blocks
  poll_rpc-same_tip tip ans s h =
      let now = core fl a d node now_text ans.bc ans.net ans.mp ans.pi s in
      let same : same_ℤ fl a d node now_text tip s.blocks_fetched_at ≡ true =
        rw h (same_ℤ-refl s.blocks_fetched_at) in
      let kept =
        private_update-keeps fl a d node now_text
          (call_result fl a d node now_text (codes "getprivatebroadcastinfo")) now in
      rw (poll_rpc-core tip ans s) (
        unfold after_core in
        rw same
          (kept.0 ∙ (core_fields-keeps fl a d node now_text ans.bc ans.net ans.mp ans.pi s).0))

  -- The node has the statistics of every block up to the tip, each with its height.
  abbrev pub HasStats : ℕ → Type 0
  HasStats tip =
      (h : ℕ)
      → h ≤ tip
      → (bs : Json Double) × (stats_at fl a d node now_text (pos h) ≡ inr bs)
        × (value (get_int64 fl) (codes "height") (pos 0) bs ≡ pos h)

  fetch_blocks-none : (rounds : ℕ) → fetch_blocks fl a d node now_text rounds (negsuc 0) ≡ []
  unfolding fetch_blocks
  fetch_blocks-none zero = refl
  fetch_blocks-none (suc rounds) = refl

  fetch_blocks-count_down :
      (rounds height : ℕ)
      → HasStats height
      → map (λ (b : BlockStat). b.height) (fetch_blocks fl a d node now_text rounds (pos height))
        ≡ count_down rounds height
  unfolding fetch_blocks block_of
  fetch_blocks-count_down zero height has = refl
  fetch_blocks-count_down (suc rounds) zero has =
      let (bs, e, h) = has zero (omega arith) in rw (e, h, fetch_blocks-none rounds) refl
  fetch_blocks-count_down (suc rounds) (suc height) has =
      let (bs, e, h) = has (suc height) (omega arith) in
      let rest = fetch_blocks-count_down rounds height (λ i le. has i (omega (arith, le))) in
      rw (nonneg (suc height), e, h, pred_pos height, rest) refl

  fetch_blocks-fails :
      (rounds : ℕ) (height : ℤ) (e : Exception)
      → stats_at fl a d node now_text height ≡ inl e
      → fetch_blocks fl a d node now_text rounds height ≡ []
  unfolding fetch_blocks
  fetch_blocks-fails zero height e h = refl
  fetch_blocks-fails (suc rounds) height e h = ground (arith, h)

-- Two polls that find the same new tip.
module _ (fl : Floats) (a : Arithmetic fl.Double) (d : PollDoubles fl.Double)
    (node later : Bytes → Json fl.Double → Exception ⊎ Json fl.Double) (now_text then_text : Bytes)
    (n : ℕ) (s : AppState fl.Double) where
  open fl use {Double}

  -- When the node answers, with a tip at height one or more that is a new one and with the
  -- statistics of every block up to it, the poll leaves the twenty blocks from the tip down, or all
  -- of them down to height zero if there are fewer, the newest first; and the next poll that the
  -- node answers with this tip keeps them, whatever it would be told of the blocks.
  pub poll_rpc-recent :
      Answers fl a d node now_text (pos (suc n))
      → HasStats fl a d node now_text (suc n)
      → Answers fl a d later then_text (pos (suc n))
      → s.blocks_fetched_at ≢ pos (suc n)
      → (map (λ (b : BlockStat). b.height) (poll_rpc fl a d node now_text s).recent_blocks
          ≡ count_down 20 (suc n))
        × ((poll_rpc fl a d later then_text (poll_rpc fl a d node now_text s)).recent_blocks
            ≡ (poll_rpc fl a d node now_text s).recent_blocks)
  poll_rpc-recent ans has again h =
      let new = poll_rpc-new_tip fl a d node now_text n ans s h in
      (
        ap (map (λ (b : BlockStat). b.height)) new.0
            ∙ fetch_blocks-count_down fl a d node now_text 20 (suc n) has,
        poll_rpc-same_tip fl a d later then_text (pos (suc n)) again
            (poll_rpc fl a d node now_text s) (sym new.1),
      )

  -- When the call for the statistics of a new tip fails, the recent blocks are emptied, and the next
  -- poll that finds this tip leaves them empty, even if the node could tell them by then.
  pub poll_rpc-lost :
      (e : Exception)
      → Answers fl a d node now_text (pos (suc n))
      → stats_at fl a d node now_text (pos (suc n)) ≡ inl e
      → Answers fl a d later then_text (pos (suc n))
      → s.blocks_fetched_at ≢ pos (suc n)
      → ((poll_rpc fl a d node now_text s).recent_blocks ≡ [])
        × ((poll_rpc fl a d later then_text (poll_rpc fl a d node now_text s)).recent_blocks ≡ [])
  poll_rpc-lost e ans fails again h =
      let new = poll_rpc-new_tip fl a d node now_text n ans s h in
      let empty = new.0 ∙ fetch_blocks-fails fl a d node now_text 20 (pos (suc n)) e fails in
      (
        empty,
        poll_rpc-same_tip fl a d later then_text (pos (suc n)) again
              (poll_rpc fl a d node now_text s) (sym new.1)
            ∙ empty,
      )
