-- ===== src/Rpc/Uri.antt =====
-- src/rpc_client.cpp: `uri_encode`, against percent-decoding.
use bitcoin_tui.Base.{
  ℕ, ◌+◌, ◌-◌, ◌*◌, ◌/◌, ◌%◌, ◌<◌, Bool, true, false, ◌||◌, ◌&&◌, [], ◌∷◌, ◌++◌, append_assoc,
  append-nil, Bytes, ◌==◌, leb, ltb, if◌then◌else◌, Option, none, some, ◌≡◌, refl, arith, ◌∙◌,
}
use mathlib.Core.Option
use bitcoin_tui.Rpc.Base64.{AreBytes}

-- std::isalnum in the "C" locale, and the four marks that stay.
abbrev is_unreserved : ℕ → Bool
is_unreserved c =
    (leb b'0' c && leb c b'9')
    || (leb b'A' c && leb c b'Z')
    || (leb b'a' c && leb c b'z')
    || c == b'-'
    || c == b'.'
    || c == b'_'
    || c == b'~'

-- One digit of `%02X`.
upper_hex : ℕ → ℕ
upper_hex d = if ltb d 10 then b'0' + d else b'A' + d - 10

-- What one round of `uri_encode` appends.
encode_byte : ℕ → Bytes
encode_byte c =
    if is_unreserved c then c ∷ [] else b'%' ∷ upper_hex (c / 16) ∷ upper_hex (c % 16) ∷ []

uri_loop : Bytes → Bytes → Bytes
uri_loop [] out = out
uri_loop (c ∷ s) out = uri_loop s (out ++ encode_byte c)

unfoldable pub uri_encode : Bytes → Bytes
unfolding uri_loop encode_byte upper_hex
uri_encode s = uri_loop s []

-- The value of a hexadecimal digit, in upper case.
hex_of : ℕ → ℕ
hex_of h = if leb h b'9' then h - b'0' else h - b'A' + 10

-- Percent-decoding, RFC 3986, section 2.1.
pub percent_decode : Bytes → Option Bytes
percent_decode [] = some []
percent_decode (c ∷ []) = if c == b'%' then none else some (c ∷ [])
percent_decode (c ∷ h ∷ []) = if c == b'%' || h == b'%' then none else some (c ∷ h ∷ [])
percent_decode (c ∷ h ∷ l ∷ s) =
    let escaped = percent_decode s in
    let plain = percent_decode (h ∷ l ∷ s) in
    if c == b'%'
    then Option.map (λ more. (hex_of h * 16 + hex_of l) ∷ more) escaped
    else Option.map (λ more. c ∷ more) plain

-- Every byte of an encoded text may stand in a path segment as it is.
abbrev is_safe : ℕ → Bool
is_safe c = is_unreserved c || c == b'%'

abbrev pub AreSafe : Bytes → Type 0
AreSafe [] = Unit
AreSafe (c ∷ s) = (is_safe c ≡ true) × AreSafe s

AreSafe-append : (s t : Bytes) → AreSafe s → AreSafe t → AreSafe (s ++ t)
AreSafe-append [] t hs ht = ht
AreSafe-append (c ∷ s) t hs ht = (hs.0, AreSafe-append s t hs.1 ht)

-- The encoding byte by byte.
encoded : Bytes → Bytes
encoded [] = []
encoded (c ∷ s) = encode_byte c ++ encoded s

uri_loop-encoded : (s out : Bytes) → uri_loop s out ≡ out ++ encoded s
unfolding uri_loop encoded
uri_loop-encoded [] out = rw append-nil
uri_loop-encoded (c ∷ s) out =
    uri_loop-encoded s (out ++ encode_byte c) ∙ append_assoc out (encode_byte c) (encoded s)

decode_plain :
    (c : ℕ) (s : Bytes)
    → (c == b'%') ≡ false
    → percent_decode (c ∷ s) ≡ Option.map (λ more. c ∷ more) (percent_decode s)
unfolding percent_decode
decode_plain c [] h = rw h
decode_plain c (d ∷ []) h = ground arith
decode_plain c (d ∷ e ∷ s) h = rw h

hex_of-upper_hex : (d : ℕ) → d < 16 → hex_of (upper_hex d) ≡ d
unfolding hex_of upper_hex
hex_of-upper_hex d h = ground arith

decode_escape :
    (c : ℕ) (s : Bytes)
    → c < 256
    → percent_decode (b'%' ∷ upper_hex (c / 16) ∷ upper_hex (c % 16) ∷ s)
      ≡ Option.map (λ more. c ∷ more) (percent_decode s)
unfolding percent_decode
decode_escape c s h =
    let high = hex_of-upper_hex (c / 16) (omega arith) in
    let low = hex_of-upper_hex (c % 16) (omega arith) in
    let whole : c / 16 * 16 + c % 16 ≡ c = omega arith in rw (high, low, whole)

decode-encode_byte :
    (c : ℕ) (s : Bytes)
    → c < 256
    → percent_decode (encode_byte c ++ s) ≡ Option.map (λ more. c ∷ more) (percent_decode s)
unfolding encode_byte
decode-encode_byte c s h = ground (arith, decode_plain c s, decode_escape c s h)

decode-encoded : (s : Bytes) → AreBytes s → percent_decode (encoded s) ≡ some s
unfolding encoded
decode-encoded [] h = unfold percent_decode in refl
decode-encoded (c ∷ s) h = rw (decode-encode_byte c (encoded s) h.0, decode-encoded s h.1)

upper_hex-safe : (d : ℕ) → d < 16 → is_safe (upper_hex d) ≡ true
unfolding upper_hex
upper_hex-safe d h = ground arith

encode_byte-AreSafe : (c : ℕ) → c < 256 → AreSafe (encode_byte c)
unfolding encode_byte
encode_byte-AreSafe c h = ground (arith, upper_hex-safe (c / 16), upper_hex-safe (c % 16))

encoded-AreSafe : (s : Bytes) → AreBytes s → AreSafe (encoded s)
unfolding encoded
encoded-AreSafe [] h = tt
encoded-AreSafe (c ∷ s) h =
    AreSafe-append (encode_byte c) (encoded s) (encode_byte-AreSafe c h.0) (encoded-AreSafe s h.1)

-- A wallet name of any bytes is encoded into letters, digits, `-._~` and `%` alone, so that it is
-- one segment of the path, and percent-decoding gives the name back.
pub uri_encode_lem :
    (s : Bytes) → AreBytes s → AreSafe (uri_encode s) × (percent_decode (uri_encode s) ≡ some s)
unfolding uri_encode
uri_encode_lem s h = rw (uri_loop-encoded s []) (encoded-AreSafe s h, decode-encoded s h)
