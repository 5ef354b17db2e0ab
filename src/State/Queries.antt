-- ===== src/State/Queries.antt =====
-- src/state.hpp: what the query validators and the row indices promise each other.
use bitcoin_tui.Base.{
  ℕ, suc, ◌+◌, ◌-◌, ◌*◌, ◌<◌, ◌≤◌, true, false, [], ◌∷◌, Bytes, length, is_digit, Digits, value,
  pos, ◌≡◌, arith, stoll, ok, zero, stoll_small, ◌≢◌,
}
use bitcoin_tui.State.{empty, all_of, is_height, is_txid}

Digits-all_of : (s : Bytes) → all_of is_digit s ≡ true → Digits s
Digits-all_of [] h = tt
Digits-all_of (c ∷ s) h = (ground arith, Digits-all_of s (ground arith))

-- m, ten times larger k times over.
ten_times : ℕ → ℕ → ℕ
ten_times zero m = m
ten_times (suc k) m = ten_times k (m * 10)

lt-ten_times : (k n m : ℕ) → n < m → n < ten_times k m
unfolding ten_times
lt-ten_times zero n m h = h
lt-ten_times (suc k) n m h = lt-ten_times k n (m * 10) (omega arith)

value-lt : (s : Bytes) (k n m : ℕ) → Digits s → length s ≤ k → n < m → value n s < ten_times k m
unfolding ten_times
value-lt [] k n m hd hk h = lt-ten_times k n m h
value-lt (c ∷ s) zero n m hd hk h = absurd (omega arith)
value-lt (c ∷ s) (suc k) n m hd hk h =
    value-lt s k (n * 10 + (c - b'0')) (m * 10) hd.1 (omega arith) (omega arith)

ne_nil : (s : Bytes) → empty s ≡ false → s ≢ []
ne_nil [] h = cc
ne_nil (c ∷ s) h = cc

-- A text that passes for a height is read by std::stoll without an exception, as a number below
-- 10^8, and does not pass for a transaction id.
pub is_height_lem :
    (s : Bytes)
    → is_height s ≡ true
    → (stoll s ≡ ok (pos (value 0 s))) × (value 0 s < 100000000) × (is_txid s ≡ false)
unfolding is_height is_txid ten_times
is_height_lem s h =
    let digits = Digits-all_of s (ground arith) in
    let small : value 0 s < 100000000 = value-lt s 8 0 1 digits (ground arith) (omega arith) in
    (stoll_small s (ne_nil s (ground arith)) digits (omega arith), small, ground arith)
