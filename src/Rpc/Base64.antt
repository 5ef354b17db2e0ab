-- ===== src/Rpc/Base64.antt =====
-- src/rpc_client.cpp: `base64_encode`, against a reading of RFC 4648.
use bitcoin_tui.Base.{
  ℕ, ◌+◌, ◌-◌, ◌*◌, ◌/◌, ◌%◌, ◌<◌, Bool, true, false, ◌&&◌, [], ◌∷◌, ◌++◌, append_assoc, append-nil,
  Bytes, codes, ◌==◌, leb, if◌then◌else◌, get_or, Option, none, some, ◌≡◌, refl, ◌∙◌, arith,
  passes_below, passes_below_sound,
}

-- `static const char* chars`
abbrev chars : Bytes
chars = codes "ABCDEFGHIJKLMNOPQRSTUVWXYZabcdefghijklmnopqrstuvwxyz0123456789+/"

letter : ℕ → ℕ
letter n = get_or chars n 0

-- What three gathered bytes append. The masks and shifts pick the sextets of the three bytes, and
-- each `|` joins disjoint bits, so it adds.
quad : ℕ → ℕ → ℕ → Bytes
quad a b c =
    letter (a / 4 % 64)
    ∷ letter (a % 4 * 16 + b / 16 % 16)
    ∷ letter (b % 16 * 4 + c / 64 % 4)
    ∷ letter (c % 64)
    ∷ []

-- What the one or two bytes that are left over append.
padded : Bytes → Bytes
padded [] = []
padded (a ∷ []) = letter (a / 4 % 64) ∷ letter (a % 4 * 16) ∷ b'=' ∷ b'=' ∷ []
padded (a ∷ b ∷ s) =
    letter (a / 4 % 64) ∷ letter (a % 4 * 16 + b / 16 % 16) ∷ letter (b % 16 * 4) ∷ b'=' ∷ []

-- The loop: `buf` holds the `i` bytes that are gathered.
base64_loop : Bytes → Bytes → Bytes → Bytes
base64_loop [] buf out = out ++ padded buf
base64_loop (c ∷ s) [] out = base64_loop s (c ∷ []) out
base64_loop (c ∷ s) (a ∷ []) out = base64_loop s (a ∷ c ∷ []) out
base64_loop (c ∷ s) (a ∷ b ∷ buf) out = base64_loop s [] (out ++ quad a b c)

unfoldable pub base64_encode : Bytes → Bytes
unfolding base64_loop quad padded letter
base64_encode input = base64_loop input [] []

-- The value of a letter of the alphabet, by the ranges of RFC 4648, table 1; no other byte has one.
sextet : ℕ → Option ℕ
sextet c =
    if leb b'A' c && leb c b'Z'
    then some (c - b'A')
    else if leb b'a' c && leb c b'z'
    then some (c - b'a' + 26)
    else if leb b'0' c && leb c b'9'
    then some (c - b'0' + 52)
    else if c == b'+'
    then some 62
    else if c == b'/'
    then some 63
    else none

-- The bytes of a group: of four sextets, of three before `=`, and of two before `==`. The bits that
-- a padded group leaves over are zero.
group_of_four : Option ℕ → Option ℕ → Option ℕ → Option ℕ → Option Bytes
group_of_four (some p) (some q) (some r) (some t) =
    some ((p * 4 + q / 16) ∷ (q % 16 * 16 + r / 4) ∷ (r % 4 * 64 + t) ∷ [])
group_of_four _ _ _ _ = none

group_of_three : Option ℕ → Option ℕ → Option ℕ → Option Bytes
group_of_three (some p) (some q) (some r) =
    if r % 4 == 0 then some ((p * 4 + q / 16) ∷ (q % 16 * 16 + r / 4) ∷ []) else none
group_of_three _ _ _ = none

group_of_two : Option ℕ → Option ℕ → Option Bytes
group_of_two (some p) (some q) = if q % 16 == 0 then some ((p * 4 + q / 16) ∷ []) else none
group_of_two _ _ = none

-- The last group, which may be padded.
last_group : ℕ → ℕ → ℕ → ℕ → Option Bytes
unfolding group_of_two group_of_three group_of_four
last_group p q r t =
    if t == b'='
    then if r == b'='
      then group_of_two (sextet p) (sextet q)
      else group_of_three (sextet p) (sextet q) (sextet r)
    else group_of_four (sextet p) (sextet q) (sextet r) (sextet t)

joined : Option Bytes → Option Bytes → Option Bytes
joined (some s) (some t) = some (s ++ t)
joined _ _ = none

-- Decoding by groups of four letters.
pub base64_decode : Bytes → Option Bytes
unfolding last_group joined
base64_decode [] = some []
base64_decode (p ∷ q ∷ r ∷ t ∷ []) = last_group p q r t
base64_decode (p ∷ q ∷ r ∷ t ∷ c ∷ s) =
    let rest = base64_decode (c ∷ s) in
    joined (group_of_four (sextet p) (sextet q) (sextet r) (sextet t)) rest
base64_decode _ = none

abbrev is_value : ℕ → Option ℕ → Bool
is_value n none = false
is_value n (some m) = m == n

-- checked for each of the 64 letters
sextet_table :
    passes_below 64
      (λ n. is_value n (sextet (letter n)) && (if letter n == b'=' then false else true))
    ≡ true
unfolding passes_below sextet letter
sextet_table = refl

is_value-some : (n : ℕ) (o : Option ℕ) → is_value n o ≡ true → o ≡ some n
is_value-some n none h = ground arith
is_value-some n (some m) h = ground (arith, h)

sextet-letter : (n : ℕ) → n < 64 → (sextet (letter n) ≡ some n) × ((letter n == b'=') ≡ false)
sextet-letter n h =
    let checked = passes_below_sound 64 _ n sextet_table h in
    (is_value-some n (sextet (letter n)) (ground (arith, checked)), ground (arith, checked))

-- The encoding by groups of three, as the RFC defines it.
groups : Bytes → Bytes
groups (a ∷ b ∷ c ∷ s) = quad a b c ++ groups s
groups (a ∷ b ∷ []) = padded (a ∷ b ∷ [])
groups (a ∷ []) = padded (a ∷ [])
groups [] = []

base64_loop-groups : (s out : Bytes) → base64_loop s [] out ≡ out ++ groups s
unfolding base64_loop groups padded
base64_loop-groups [] out = refl
base64_loop-groups (a ∷ []) out = refl
base64_loop-groups (a ∷ b ∷ []) out = refl
base64_loop-groups (a ∷ b ∷ c ∷ s) out =
    base64_loop-groups s (out ++ quad a b c) ∙ append_assoc out (quad a b c) (groups s)

-- Each number is the value of an `unsigned char`.
abbrev pub AreBytes : Bytes → Type 0
AreBytes [] = Unit
AreBytes (c ∷ s) = (c < 256) × AreBytes s

decode_step :
    (p q r t : ℕ) (g : Bytes) (s : Bytes)
    → (t == b'=') ≡ false
    → group_of_four (sextet p) (sextet q) (sextet r) (sextet t) ≡ some g
    → base64_decode (p ∷ q ∷ r ∷ t ∷ s) ≡ joined (some g) (base64_decode s)
unfolding base64_decode last_group joined
decode_step p q r t g [] ht e = rw (ht, e, append-nil) refl
decode_step p q r t g (c ∷ s) ht e = rw e refl

-- The sextets of three bytes make the bytes again.
group_of_four-bytes :
    (a b c : ℕ)
    → a < 256
    → b < 256
    → c < 256
    → group_of_four
        (some (a / 4 % 64))
        (some (a % 4 * 16 + b / 16 % 16))
        (some (b % 16 * 4 + c / 64 % 4))
        (some (c % 64))
      ≡ some (a ∷ b ∷ c ∷ [])
unfolding group_of_four
group_of_four-bytes a b c ha hb hc =
    let ea : a / 4 % 64 * 4 + (a % 4 * 16 + b / 16 % 16) / 16 ≡ a = omega arith in
    let eb : (a % 4 * 16 + b / 16 % 16) % 16 * 16 + (b % 16 * 4 + c / 64 % 4) / 4 ≡ b =
      omega arith in
    let ec : (b % 16 * 4 + c / 64 % 4) % 4 * 64 + c % 64 ≡ c = omega arith in rw (ea, eb, ec) refl

decode-quad :
    (a b c : ℕ) (s : Bytes)
    → a < 256
    → b < 256
    → c < 256
    → base64_decode (quad a b c ++ s) ≡ joined (some (a ∷ b ∷ c ∷ [])) (base64_decode s)
unfolding quad
decode-quad a b c s ha hb hc =
    let p = sextet-letter (a / 4 % 64) (omega arith) in
    let q = sextet-letter (a % 4 * 16 + b / 16 % 16) (omega arith) in
    let r = sextet-letter (b % 16 * 4 + c / 64 % 4) (omega arith) in
    let t = sextet-letter (c % 64) (omega arith) in
    decode_step _ _ _ _ (a ∷ b ∷ c ∷ []) s t.1
      (rw (p.0, q.0, r.0, t.0) (group_of_four-bytes a b c ha hb hc))

decode-two : (a b : ℕ) → a < 256 → b < 256 → base64_decode (padded (a ∷ b ∷ [])) ≡ some (a ∷ b ∷ [])
unfolding base64_decode last_group padded group_of_three
decode-two a b ha hb =
    let p = sextet-letter (a / 4 % 64) (omega arith) in
    let q = sextet-letter (a % 4 * 16 + b / 16 % 16) (omega arith) in
    let r = sextet-letter (b % 16 * 4) (omega arith) in
    let left : b % 16 * 4 % 4 ≡ 0 = omega arith in
    let ea : a / 4 % 64 * 4 + (a % 4 * 16 + b / 16 % 16) / 16 ≡ a = omega arith in
    let eb : (a % 4 * 16 + b / 16 % 16) % 16 * 16 + b % 16 * 4 / 4 ≡ b = omega arith in
    rw (r.1, p.0, q.0, r.0, left, ea, eb) refl

decode-one : (a : ℕ) → a < 256 → base64_decode (padded (a ∷ [])) ≡ some (a ∷ [])
unfolding base64_decode last_group padded group_of_two
decode-one a ha =
    let p = sextet-letter (a / 4 % 64) (omega arith) in
    let q = sextet-letter (a % 4 * 16) (omega arith) in ground (arith, p.0, q.0)

decode-groups : (s : Bytes) → AreBytes s → base64_decode (groups s) ≡ some s
unfolding groups joined
decode-groups [] h = unfold base64_decode in refl
decode-groups (a ∷ []) h = decode-one a h.0
decode-groups (a ∷ b ∷ []) h = decode-two a b h.0 h.1.0
decode-groups (a ∷ b ∷ c ∷ s) h =
    rw (decode-quad a b c (groups s) h.0 h.1.0 h.1.1.0, decode-groups s h.1.1.1) refl

-- What `base64_encode` writes for a byte string, a decoder of RFC 4648 reads back: one that takes no
-- byte from outside the alphabet, padding at the end only, and padded bits that are zero.
pub base64_decode-base64_encode :
    (s : Bytes) → AreBytes s → base64_decode (base64_encode s) ≡ some s
unfolding base64_encode
base64_decode-base64_encode s h = rw (base64_loop-groups s []) (decode-groups s h)
