-- ===== src/Render/Ellipsis.antt =====
-- src/render.cpp: what `ellipsize_middle` leaves of a long text.
use bitcoin_tui.Base.{
  ellipsis, length-append, ℕ, ◌+◌, ◌-◌, ◌%◌, ◌^◌, ◌<◌, [], ◌∷◌, ◌++◌, append_assoc, Bytes, length,
  take, drop, leb, true, false, ok, ◌≡◌, refl, sym, arith,
}
use bitcoin_tui.Render.{substr_from, ellipsize_middle}

take-prefix : (a s : Bytes) → take (length a) (a ++ s) ≡ a
take-prefix [] s = refl
take-prefix (x ∷ a) s = rw (take-prefix a s) refl

drop-front : (a b : Bytes) → drop (length a) (a ++ b) ≡ b
drop-front [] b = refl
drop-front (x ∷ a) b = drop-front a b

length-parts : (a m b : Bytes) → length (a ++ (m ++ b)) ≡ length a + length m + length b
length-parts a m b = omega (arith, length-append a (m ++ b), length-append m b)

drop-suffix : (a m b : Bytes) → drop (length a + length m) (a ++ (m ++ b)) ≡ b
drop-suffix a m b = rw (sym (length-append a m), sym (append_assoc a m b)) (drop-front (a ++ m) b)

behind : (n k : ℕ) → n + k < 2 ^ 64 → (n + k + 2 ^ 64 - k) % 2 ^ 64 ≡ n
behind n k h = omega arith

longer : (n m : ℕ) → m < n → leb n m ≡ false
longer n m h = ground arith

within : (n k : ℕ) → leb n (n + k) ≡ true
within n k = ground arith

-- Of a text longer than `max_len` that is a front, a middle and a back, `ellipsize_middle` with the
-- lengths of the front and the back leaves these two with an ellipsis for the middle; the length of
-- the text is one of 64 bits.
pub ellipsize_middle_lem :
    (front middle back : Bytes) (max_len : ℕ)
    → max_len < length front + length middle + length back
    → length front + length middle + length back < 2 ^ 64
    → ellipsize_middle (front ++ (middle ++ back)) max_len (length front) (length back)
      ≡ ok (front ++ (ellipsis ++ back))
unfolding ellipsize_middle substr_from
ellipsize_middle_lem front middle back max_len h k =
    rw
      (
        length-parts front middle back,
        longer (length front + length middle + length back) max_len h,
        behind (length front + length middle) (length back) k,
        within (length front + length middle) (length back),
        drop-suffix front middle back,
        take-prefix front (middle ++ back),
      )
      refl
