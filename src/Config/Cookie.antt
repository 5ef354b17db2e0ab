-- ===== src/Config/Cookie.antt =====
-- src/main.cpp: the cookie file that bitcoind writes, and the directories of the networks.
use bitcoin_tui.Base.{
  ℕ, Bool, true, false, [], ◌∷◌, ◌++◌, Bytes, ◌==◌, none, some, ◌⊎◌, inl, inr, ◌≡◌, refl, ap, arith,
  ℤ,
}
use bitcoin_tui.State.{empty}
use bitcoin_tui.Config.{
  first_line, pop_return, split_at, before, apply_cookie, count, select_network,
}

-- A text without the byte `b`.
abbrev pub Lacks : ℕ → Bytes → Type 0
Lacks b [] = Unit
Lacks b (c ∷ s) = ((c == b) ≡ false) × Lacks b s

-- How a line ends: with the file, with a line feed, or with a carriage return and a line feed.
pub data LineEnd : Type 0 where
  file_end : LineEnd
  line_feed : Bytes → LineEnd
  return_line_feed : Bytes → LineEnd

abbrev pub end_text : LineEnd → Bytes
end_text file_end = []
end_text (line_feed rest) = 0x0a ∷ rest
end_text (return_line_feed rest) = 0x0d ∷ 0x0a ∷ rest

first_line-end :
    (s : Bytes) (e : LineEnd)
    → Lacks 0x0a s
    → Lacks 0x0d s
    → pop_return (first_line (s ++ end_text e)) ≡ s
unfolding first_line pop_return
first_line-end [] file_end h k = refl
first_line-end [] (line_feed rest) h k = refl
first_line-end [] (return_line_feed rest) h k = refl
first_line-end (c ∷ []) file_end h k = ground (arith, h.0, k.0)
first_line-end (c ∷ []) (line_feed rest) h k = ground (arith, h.0, k.0)
first_line-end (c ∷ []) (return_line_feed rest) h k = ground (arith, h.0, k.0)
first_line-end (c ∷ d ∷ s) e h k =
    rw (h.0, h.1.0) (ap (λ t. c ∷ t) (rw h.1.0 at (first_line-end (d ∷ s) e h.1 k.1)))

split_at-first : (b : ℕ) (s t : Bytes) → Lacks b s → split_at b (s ++ b ∷ t) ≡ some (s, t)
unfolding split_at before
split_at-first b [] t h = ground arith
split_at-first b (c ∷ s) t h = rw (h.0, split_at-first b s t h.1) refl

first_line-ne_nil :
    (s t : Bytes) → empty s ≡ false → Lacks 0x0a s → empty (first_line (s ++ t)) ≡ false
unfolding first_line
first_line-ne_nil [] t e h = cc
first_line-ne_nil (c ∷ s) t e h = rw h.0 refl

cons-in_front : (user password : Bytes) → empty (user ++ b':' ∷ password) ≡ false
cons-in_front [] password = refl
cons-in_front (c ∷ user) password = refl

-- The user and the password that a cookie file holds in its first line, with a colon between them,
-- are the credentials that are read, however the line ends: for a user without a colon, and both
-- without line feeds and carriage returns. The password may hold colons.
pub apply_cookie_lem :
    (path user password : Bytes) (e : LineEnd)
    → Lacks b':' user
    → Lacks 0x0a (user ++ b':' ∷ password)
    → Lacks 0x0d (user ++ b':' ∷ password)
    → apply_cookie path (some ((user ++ b':' ∷ password) ++ end_text e))
      ≡ inr (record { user = user; password = password })
unfolding apply_cookie
apply_cookie_lem path user password e hu hl hr =
    let line = user ++ b':' ∷ password in
    let some_line = first_line-ne_nil line (end_text e) (cons-in_front user password) hl in
    let whole = first_line-end line e hl hr in
    let split = split_at-first b':' user password hu in rw (some_line, whole, split) refl

-- A port that the user gives is kept whatever network is chosen, unless the options conflict.
pub select_network_lem :
    (use_testnet use_testnet4 use_regtest use_signet : Bool) (port : ℤ) (network : Bytes)
    → (select_network use_testnet use_testnet4 use_regtest use_signet false port network ≡ none)
      ⊎ ((chosen : Bytes) × (select_network use_testnet use_testnet4 use_regtest use_signet false
              port network
            ≡ some (port, chosen)))
unfolding select_network count
select_network_lem false false false false port network = inr (_, refl)
select_network_lem false false false true port network = inr (_, refl)
select_network_lem false false true false port network = inr (_, refl)
select_network_lem false false true true port network = inl refl
select_network_lem false true false false port network = inr (_, refl)
select_network_lem false true false true port network = inl refl
select_network_lem false true true false port network = inl refl
select_network_lem false true true true port network = inl refl
select_network_lem true false false false port network = inr (_, refl)
select_network_lem true false false true port network = inl refl
select_network_lem true false true false port network = inl refl
select_network_lem true false true true port network = inl refl
select_network_lem true true false false port network = inl refl
select_network_lem true true false true port network = inl refl
select_network_lem true true true false port network = inl refl
select_network_lem true true true true port network = inl refl
