-- ===== src/Search/Miner.antt =====
-- `extract_miner` of src/format.hpp: the miner's tag in a coinbase script.
use bitcoin_tui.Base.{
  ℕ, ◌+◌, ◌-◌, ◌*◌, Bool, true, false, ◌&&◌, ◌||◌, not, [], ◌∷◌, ◌++◌, Bytes, em_dash, length, take,
  leb, ltb, ◌==◌, is_digit, if◌then◌else◌, ◌⊎◌, inl, inr, ℤ, pos, negsuc, ◌-ℤ◌, Exception,
  invalid_argument,
}
use bitcoin_tui.State.{empty, is_xdigit}

digit_of : ℕ → ℕ
digit_of c = if is_digit c then c - b'0' else if leb b'a' c then c - b'a' + 10 else c - b'A' + 10

hex_prefix : ℕ → Bytes → ℕ
hex_prefix n [] = n
hex_prefix n (c ∷ s) =
    let more = hex_prefix (n * 16 + digit_of c) s in if is_xdigit c then more else n

signed_prefix : Bool → Bytes → Exception ⊎ ℤ
unfolding hex_prefix digit_of
signed_prefix neg [] = inl invalid_argument
signed_prefix neg (c ∷ s) =
    let n = hex_prefix 0 (c ∷ s) in
    if not (is_xdigit c)
    then inl invalid_argument
    else if neg
    then inr (pos 0 -ℤ pos n)
    else inr (pos n)

-- std::stoi(s, nullptr, 16) for two bytes: white space, a sign, digits. In two bytes no digit can
-- follow `0x`, which is read as 0.
unfoldable pub stoi_16 : Bytes → Exception ⊎ ℤ
unfolding signed_prefix
stoi_16 [] = inl invalid_argument
stoi_16 (c ∷ s) =
    if c == 32 || (leb 9 c && leb c 13)
    then after_space s
    else if c == b'-'
    then signed_prefix true s
    else if c == b'+'
    then signed_prefix false s
    else signed_prefix false (c ∷ s)
  where
    after_space : Bytes → Exception ⊎ ℤ
    after_space s = signed_prefix false s

-- Whether a byte is printable and no slash.
abbrev is_tag : ℤ → Bool
is_tag (pos b) = leb 0x20 b && ltb b 0x7f && not (b == b'/')
is_tag (negsuc b) = false

abbrev low_byte : ℤ → ℕ
low_byte (pos b) = b
low_byte (negsuc b) = 0

better : Bytes → Bytes → Bytes
better best run = if leb 4 (length run) && ltb (length best) (length run) then run else best

tag_step : ℤ → Bytes → Bytes → Bytes × Bytes
unfolding better
tag_step b best run = if is_tag b then (best, run ++ low_byte b ∷ []) else (better best run, [])

unfoldable pub miner_loop : Bytes → Bytes → Bytes → Exception ⊎ Bytes
unfolding stoi_16 tag_step better
miner_loop (a ∷ b ∷ hex) best run = elim (stoi_16 (a ∷ b ∷ [])) [
  | inl e ↦ inl e
  | inr n ↦ (let (best', run') = tag_step n best run in miner_loop hex best' run')
]
miner_loop _ best run = inr (better best run)

unfoldable pub extract_miner : Bytes → Exception ⊎ Bytes
unfolding miner_loop
extract_miner hex = elim (miner_loop hex [] []) [
  | inl e ↦ inl e
  | inr best ↦ inr (if empty best then em_dash else take 24 best)
]
