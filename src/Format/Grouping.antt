-- ===== src/Format/Grouping.antt =====
-- src/format.hpp: where `fmt_int` and `fmt_height` put their marks.
use bitcoin_tui.Base.{
  ℕ, zero, suc, ◌+◌, ◌-◌, ◌≤◌, ◌<◌, ◌%◌, Bool, true, false, [], ◌∷◌, ◌++◌, append_assoc, Bytes,
  length, length-append, take, drop, take-append-drop, length-take, ◌==◌, if◌then◌else◌, ℤ, pos,
  negsuc, to_decimal, to_decimal-Digits, to_string, Digits, ◌≡◌, ◌≢◌, refl, sym, ◌∙◌, ap, arith,
}
use bitcoin_tui.Format.{insert_at, group_loop, grouped, fmt_int}

-- A mark before each byte from which on the text's length is a multiple of three.
pub marked : ℕ → Bytes → Bytes
marked mark [] = []
marked mark (c ∷ s) =
    if length (c ∷ s) % 3 == 0 then mark ∷ c ∷ marked mark s else c ∷ marked mark s

-- The same, but for the first byte.
pub in_threes : ℕ → Bytes → Bytes
in_threes mark [] = []
in_threes mark (c ∷ s) = c ∷ marked mark s

length-append_bytes : (s t : Bytes) → length (s ++ t) ≡ length s + length t
length-append_bytes = length-append

marked-append :
    (mark : ℕ) (s x : Bytes) → length x ≡ 3 → marked mark (s ++ x) ≡ marked mark s ++ mark ∷ x
unfolding marked
marked-append mark [] [] h = absurd (omega (arith, h))
marked-append mark [] (a ∷ []) h = absurd (omega (arith, h))
marked-append mark [] (a ∷ b ∷ []) h = absurd (omega (arith, h))
marked-append mark [] (a ∷ b ∷ c ∷ []) h = refl
marked-append mark [] (a ∷ b ∷ c ∷ d ∷ x) h = absurd (omega (arith, h))
marked-append mark (c ∷ s) x h =
    let same : suc (length (s ++ x)) % 3 ≡ suc (length s) % 3 =
      omega (arith, length-append_bytes s x, h) in
    rw (same, marked-append mark s x h) (placed (suc (length s) % 3 == 0))
  where
    placed :
        (b : Bool)
        → (if b then mark ∷ c ∷ (marked mark s ++ mark ∷ x) else c ∷ (marked mark s ++ mark ∷ x))
          ≡ (if b then mark ∷ c ∷ marked mark s else c ∷ marked mark s) ++ mark ∷ x
    placed true = refl
    placed false = refl

in_threes-append :
    (mark : ℕ) (c : ℕ) (s x : Bytes)
    → length x ≡ 3
    → in_threes mark (c ∷ s ++ x) ≡ in_threes mark (c ∷ s) ++ mark ∷ x
unfolding in_threes
in_threes-append mark c s x h = ap (λ more. c ∷ more) (marked-append mark s x h)

in_threes-short : (mark : ℕ) (s : Bytes) → length s ≤ 3 → in_threes mark s ≡ s
unfolding in_threes marked
in_threes-short mark [] h = refl
in_threes-short mark (a ∷ []) h = refl
in_threes-short mark (a ∷ b ∷ []) h = refl
in_threes-short mark (a ∷ b ∷ c ∷ []) h = refl
in_threes-short mark (a ∷ b ∷ c ∷ d ∷ s) h = absurd (omega arith)

insert_at-length :
    (mark : ℕ) (t rest : Bytes) → insert_at (length t) mark (t ++ rest) ≡ t ++ mark ∷ rest
unfolding insert_at
insert_at-length mark [] rest = refl
insert_at-length mark (c ∷ t) rest = ap (λ more. c ∷ more) (insert_at-length mark t rest)

-- What the loop makes of the bytes `t` that no mark stands behind yet, and the rest.
joined : ℕ → Bytes → Bytes → Bytes
joined mark [] rest = rest
joined mark (c ∷ t) rest = in_threes mark (c ∷ t) ++ mark ∷ rest

joined-append :
    (mark : ℕ) (front x rest : Bytes)
    → length front ≡ length (front ++ x) - 3
    → x ≢ []
    → joined mark front (x ++ mark ∷ rest) ≡ joined mark (front ++ x) rest
unfolding joined
joined-append mark [] [] rest h ne = absurd (ne refl)
joined-append mark [] (c ∷ x) rest h ne = rw (in_threes-short mark (c ∷ x) (omega (arith, h))) refl
joined-append mark (d ∷ front) x rest h ne =
    rw (in_threes-append mark d front x (omega (arith, h, length-append_bytes front x)))
      (sym (append_assoc (in_threes mark (d ∷ front)) (mark ∷ x) (mark ∷ rest)))

drop-ne_nil : (k : ℕ) (s : Bytes) → k < length s → drop k s ≢ []
drop-ne_nil k [] h = absurd (omega arith)
drop-ne_nil zero (c ∷ s) h = cc
drop-ne_nil (suc k) (c ∷ s) h = drop-ne_nil k s (omega arith)

length-front : (k : ℕ) (s : Bytes) → k ≤ length s → length (take k s) ≡ k
length-front k s h = omega (arith, length-take k s, h)

loop-joined :
    (f mark : ℕ) (t rest : Bytes)
    → length t ≤ f
    → group_loop f mark (length t) (t ++ rest) ≡ joined mark t rest
unfolding group_loop joined
loop-joined zero mark [] rest h = refl
loop-joined zero mark (c ∷ t) rest h = absurd (omega arith)
loop-joined (suc f) mark [] rest h = refl
loop-joined (suc f) mark (c ∷ t) rest h =
    let k = suc (length t) - 3 in
    let front = take k (c ∷ t) in
    let x = drop k (c ∷ t) in
    let size : length front ≡ k = length-front k (c ∷ t) (omega arith) in
    let whole : front ++ x ≡ c ∷ t = take-append-drop k (c ∷ t) in
    let before = loop-joined f mark front (x ++ mark ∷ rest) (omega (arith, size)) in
    let same : front ++ (x ++ mark ∷ rest) ≡ c ∷ t ++ mark ∷ rest =
      sym (append_assoc front x (mark ∷ rest)) ∙ ap (λ s. s ++ mark ∷ rest) whole in
    let fits : length front ≡ length (front ++ x) - 3 = size ∙ ap (λ s. length s - 3) (sym whole) in
    let after = joined-append mark front x rest fits (drop-ne_nil k (c ∷ t) (omega arith)) in
    ap (λ s. group_loop f mark k s) (insert_at-length mark (c ∷ t) rest ∙ sym same)
    ∙ (ap (λ p. group_loop f mark p (front ++ (x ++ mark ∷ rest))) (sym size)
        ∙ (before ∙ (after ∙ ap (λ s. joined mark s rest) whole)))

joined-in_threes :
    (mark : ℕ) (front x : Bytes)
    → length front ≡ length (front ++ x) - 3
    → joined mark front x ≡ in_threes mark (front ++ x)
unfolding joined
joined-in_threes mark [] x h = sym (in_threes-short mark x (omega (arith, h)))
joined-in_threes mark (d ∷ front) x h =
    sym (in_threes-append mark d front x (omega (arith, h, length-append_bytes front x)))

-- The loop that both functions have puts a mark in front of each digit from which on the number of
-- digits is a multiple of three, but none at the start: the groups behind the first have three
-- digits each.
pub grouped_lem : (mark : ℕ) (s : Bytes) → grouped mark s ≡ in_threes mark s
unfolding grouped
grouped_lem mark s =
    let k = length s - 3 in
    let size : length (take k s) ≡ k = length-front k s (omega arith) in
    let whole : take k s ++ drop k s ≡ s = take-append-drop k s in
    let run = loop-joined (length s) mark (take k s) (drop k s) (omega (arith, size)) in
    let same =
      joined-in_threes mark (take k s) (drop k s) (size ∙ ap (λ s. length s - 3) (sym whole)) in
    ap (λ t. group_loop (length s) mark k t) (sym whole)
    ∙ (ap (λ p. group_loop (length s) mark p (take k s ++ drop k s)) (sym size)
        ∙ (run ∙ (same ∙ ap (λ t. in_threes mark t) whole)))

-- The text without its marks.
pub unmark : ℕ → Bytes → Bytes
unmark mark [] = []
unmark mark (c ∷ s) = let more = unmark mark s in if c == mark then more else c ∷ more

abbrev Unmarked : ℕ → Bytes → Type 0
Unmarked mark [] = Unit
Unmarked mark (c ∷ s) = ((c == mark) ≡ false) × Unmarked mark s

unmark-marked : (mark : ℕ) (s : Bytes) → Unmarked mark s → unmark mark (marked mark s) ≡ s
unfolding unmark marked
unmark-marked mark [] h = refl
unmark-marked mark (c ∷ s) h = ground (arith, h.0, unmark-marked mark s h.1)

unmark-in_threes : (mark : ℕ) (s : Bytes) → Unmarked mark s → unmark mark (in_threes mark s) ≡ s
unfolding unmark in_threes
unmark-in_threes mark [] h = refl
unmark-in_threes mark (c ∷ s) h = rw (h.0, unmark-marked mark s h.1) refl

Digits-Unmarked : (s : Bytes) → Digits s → Unmarked b',' s
Digits-Unmarked [] h = tt
Digits-Unmarked (c ∷ s) h = (ground (arith, h.0), Digits-Unmarked s h.1)

-- `fmt_int` writes the number as std::to_string does, but for the commas: without them the text is
-- the number's.
pub fmt_int_lem : (i : ℤ) → unmark b',' (fmt_int i) ≡ to_string i
unfolding fmt_int to_string unmark
fmt_int_lem (pos n) =
    rw (grouped_lem b',' (to_decimal n))
      (unmark-in_threes b',' (to_decimal n) (Digits-Unmarked (to_decimal n) (to_decimal-Digits n)))
fmt_int_lem (negsuc n) = rw (grouped_lem b',' (to_decimal (suc n))) (
    ap (λ s. b'-' ∷ s)
      (unmark-in_threes b',' (to_decimal (suc n))
        (Digits-Unmarked (to_decimal (suc n)) (to_decimal-Digits (suc n)))))
