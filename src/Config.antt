-- ===== src/Config.antt =====
-- src/main.cpp: the network, and the credentials in its cookie file.
pub mod Cookie
mod Tests
use bitcoin_tui.Base.{
  ℕ, suc, ◌+◌, Bool, true, false, List, [], ◌∷◌, ◌++◌, Bytes, codes, same_bytes, ltb, ◌==◌,
  if◌then◌else◌, Option, none, some, ◌⊎◌, inl, inr, ℤ, pos,
}
use bitcoin_tui.Rpc.Http.{RpcAuth}
use bitcoin_tui.State.{empty}

unfoldable pub network_subdir : Bytes → Bytes
network_subdir network =
    if same_bytes network (codes "testnet3")
    then codes "testnet3/"
    else if same_bytes network (codes "testnet4")
    then codes "testnet4/"
    else if same_bytes network (codes "signet")
    then codes "signet/"
    else if same_bytes network (codes "regtest")
    then codes "regtest/"
    else []

unfoldable pub cookie_path : Bytes → Bytes → Bytes
unfolding network_subdir
cookie_path network datadir = datadir ++ (codes "/" ++ (network_subdir network ++ codes ".cookie"))

-- std::getline: the text in front of the first line feed; false on an empty text.
unfoldable pub first_line : Bytes → Bytes
first_line [] = []
first_line (c ∷ s) = let more = first_line s in if c == 0x0a then [] else c ∷ more

-- A carriage return at the end is popped.
unfoldable pub pop_return : Bytes → Bytes
pop_return [] = []
pop_return (c ∷ []) = if c == 0x0d then [] else c ∷ []
pop_return (c ∷ d ∷ s) = c ∷ pop_return (d ∷ s)

-- `c` in front of what stands before the byte that was found.
before : ℕ → Option (Bytes × Bytes) → Option (Bytes × Bytes)
before c none = none
before c (some (front, back)) = some (c ∷ front, back)

-- find(b), substr up to it and substr behind it.
unfoldable pub split_at : ℕ → Bytes → Option (Bytes × Bytes)
unfolding before
split_at b [] = none
split_at b (c ∷ s) = let more = split_at b s in if c == b then some ([], s) else before c more

-- `auth` is assigned at the end; an exception comes with its text. The file's text is `none` where
-- it cannot be opened.
unfoldable pub apply_cookie : Bytes → Option Bytes → Bytes ⊎ RpcAuth
unfolding first_line pop_return split_at
apply_cookie path none = inl (codes "Cannot open cookie file: " ++ path)
apply_cookie path (some text) =
    let line = first_line text in
    if empty line
    then inl (codes "Cookie file is empty: " ++ path)
    else elim (split_at b':' (pop_return line)) [
      | none ↦ inl (codes "Invalid cookie file (no ':' found): " ++ path)
      | some (user, password) ↦ inr (record { user = user; password = password })
    ]

count : Bool → ℕ
count true = 1
count false = 0

-- The port and the network that the four options choose; `none` if more than one is given.
unfoldable pub select_network : Bool → Bool → Bool → Bool → Bool → ℤ → Bytes → Option (ℤ × Bytes)
unfolding count
select_network use_testnet use_testnet4 use_regtest use_signet use_default_port port network =
    if ltb 1 (count use_testnet + count use_testnet4 + count use_regtest + count use_signet)
    then none
    else if use_testnet
    then some (if use_default_port then pos 18332 else port, codes "testnet3")
    else if use_testnet4
    then some (if use_default_port then pos 48332 else port, codes "testnet4")
    else if use_regtest
    then some (if use_default_port then pos 18443 else port, codes "regtest")
    else if use_signet
    then some (if use_default_port then pos 38332 else port, codes "signet")
    else some (port, network)
