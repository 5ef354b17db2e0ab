-- ===== src/Base/Text.antt =====
-- Byte strings: std::string as a list of numbers, in the order of std::string's operator<.
use Prim.Native.Nat.{ℕ, compare, Ordering}
use Prim.Native.Char.{code}
use Prim.Native.String.{String}
use mathlib.Core.Path.{◌≡◌, refl}
use mathlib.Core.Bool.{Bool, true, false}
use mathlib.Core.List.{List, [], ◌∷◌}
use native.Mathlib.Omega.{arith}

abbrev pub Bytes : Type 0
Bytes = List ℕ

-- The code points of a literal; these are its bytes when the text is ASCII.
abbrev pub codes : String → Bytes
codes String.[] = []
codes (String.◌∷◌ c s) = code c ∷ codes s

-- std::string::compare.
unfoldable pub compare_bytes : Bytes → Bytes → Ordering
compare_bytes [] [] = Ordering.eq
compare_bytes [] (y ∷ ys) = Ordering.lt
compare_bytes (x ∷ xs) [] = Ordering.gt
compare_bytes (x ∷ xs) (y ∷ ys) = elim (compare x y) [
  | Ordering.lt ↦ Ordering.lt
  | Ordering.eq ↦ compare_bytes xs ys
  | Ordering.gt ↦ Ordering.gt
]

pub compare_bytes_refl : (s : Bytes) → compare_bytes s s ≡ Ordering.eq
unfolding compare_bytes
compare_bytes_refl [] = refl
compare_bytes_refl (x ∷ xs) = ground (arith, compare_bytes_refl xs)

pub compare_bytes-eq : (s t : Bytes) → compare_bytes s t ≡ Ordering.eq → s ≡ t
unfolding compare_bytes
compare_bytes-eq [] [] h = refl
compare_bytes-eq [] (y ∷ ys) h = cc
compare_bytes-eq (x ∷ xs) [] h = cc
compare_bytes-eq (x ∷ xs) (y ∷ ys) h = ground (arith, compare_bytes-eq xs ys)

pub compare_bytes-gt :
    (s t : Bytes) → compare_bytes s t ≡ Ordering.gt → compare_bytes t s ≡ Ordering.lt
unfolding compare_bytes
compare_bytes-gt [] [] h = cc
compare_bytes-gt [] (y ∷ ys) h = cc
compare_bytes-gt (x ∷ xs) [] h = refl
compare_bytes-gt (x ∷ xs) (y ∷ ys) h = ground (arith, compare_bytes-gt xs ys)

pub compare_bytes-lt :
    (s t : Bytes) → compare_bytes s t ≡ Ordering.lt → compare_bytes t s ≡ Ordering.gt
unfolding compare_bytes
compare_bytes-lt [] [] h = cc
compare_bytes-lt [] (y ∷ ys) h = refl
compare_bytes-lt (x ∷ xs) [] h = cc
compare_bytes-lt (x ∷ xs) (y ∷ ys) h = ground (arith, compare_bytes-lt xs ys)

pub compare_bytes_trans :
    (s t u : Bytes)
    → compare_bytes s t ≡ Ordering.lt
    → compare_bytes t u ≡ Ordering.lt
    → compare_bytes s u ≡ Ordering.lt
unfolding compare_bytes
compare_bytes_trans [] [] u h k = cc
compare_bytes_trans [] (y ∷ ys) [] h k = cc
compare_bytes_trans [] (y ∷ ys) (z ∷ zs) h k = refl
compare_bytes_trans (x ∷ xs) [] u h k = cc
compare_bytes_trans (x ∷ xs) (y ∷ ys) [] h k = cc
compare_bytes_trans (x ∷ xs) (y ∷ ys) (z ∷ zs) h k = ground (arith, compare_bytes_trans xs ys zs)

-- std::string::operator==.
abbrev pub same_bytes : Bytes → Bytes → Bool
same_bytes s t = elim (compare_bytes s t) [ Ordering.eq ↦ true | _ ↦ false ]

pub same_bytes→eq : (s t : Bytes) → same_bytes s t ≡ true → s ≡ t
same_bytes→eq s t h = compare_bytes-eq s t (ground arith)

pub same_bytes_refl : (s : Bytes) → same_bytes s s ≡ true
same_bytes_refl s = ground (arith, compare_bytes_refl s)

-- U+2014 and U+2026 in UTF-8, as the source's messages hold them.
abbrev pub em_dash : Bytes
em_dash = 0xE2 ∷ 0x80 ∷ 0x94 ∷ []

abbrev pub ellipsis : Bytes
ellipsis = 0xE2 ∷ 0x80 ∷ 0xA6 ∷ []
