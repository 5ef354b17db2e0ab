-- ===== src/Format.antt =====
-- src/format.hpp: the helpers on integers and text.
pub mod Grouping
pub mod Trimming
mod Tests
use bitcoin_tui.Base.{
  ℕ, zero, suc, ◌+◌, ◌-◌, ◌*◌, ◌/◌, ◌%◌, Bool, true, false, ◌||◌, List, [], ◌∷◌, ◌++◌, Bytes, codes,
  length, take, drop, ◌==◌, ltb, if◌then◌else◌, ℤ, pos, negsuc, ◌-ℤ◌, ltb_ℤ, to_decimal, to_string,
}

-- s.insert(p, mark)
unfoldable pub insert_at : ℕ → ℕ → Bytes → Bytes
insert_at p mark s = take p s ++ mark ∷ drop p s

-- `while (pos > 0) { s.insert(pos, mark); pos -= 3; }`, on fuel: `pos` rounds are enough.
unfoldable pub group_loop : ℕ → ℕ → ℕ → Bytes → Bytes
unfolding insert_at
group_loop zero mark p s = s
group_loop (suc f) mark zero s = s
group_loop (suc f) mark (suc p) s = group_loop f mark (suc p - 3) (insert_at (suc p) mark s)

-- From the last three digits on; `size() - 3` below zero is no round, as is zero.
unfoldable pub grouped : ℕ → Bytes → Bytes
unfolding group_loop
grouped mark s = group_loop (length s) mark (length s - 3) s

-- std::abs of the least int64_t is not defined; its text here is that of the number.
unfoldable pub fmt_int : ℤ → Bytes
unfolding grouped
fmt_int (pos n) = grouped b',' (to_decimal n)
fmt_int (negsuc n) = b'-' ∷ grouped b',' (to_decimal (suc n))

unfoldable pub fmt_height : ℤ → Bytes
unfolding grouped
fmt_height n = grouped b'\'' (to_string n)

-- Division and remainder of int64_t by a positive number, rounded towards zero.
abbrev quotient : ℤ → ℕ → ℤ
quotient (pos n) d = pos (n / d)
quotient (negsuc n) d = pos 0 -ℤ pos (suc n / d)

abbrev remainder : ℤ → ℕ → ℤ
remainder (pos n) d = pos (n % d)
remainder (negsuc n) d = pos 0 -ℤ pos (suc n % d)

unfoldable pub fmt_age : ℤ → Bytes
fmt_age secs =
    if ltb_ℤ secs (pos 60)
    then to_string secs ++ codes "s"
    else if ltb_ℤ secs (pos 3600)
    then to_string (quotient secs 60)
      ++ (codes "m " ++ (to_string (remainder secs 60) ++ codes "s"))
    else to_string (quotient secs 3600)
      ++ (codes "h " ++ (to_string (quotient (remainder secs 3600) 60) ++ codes "m"))

-- `now_secs` is the clock's.
unfoldable pub fmt_time_ago : ℤ → ℤ → Bytes
fmt_time_ago now_secs timestamp =
    let diff = now_secs -ℤ timestamp in
    if ltb_ℤ diff (pos 0)
    then codes "just now"
    else if ltb_ℤ diff (pos 60)
    then to_string diff ++ codes "s ago"
    else if ltb_ℤ diff (pos 3600)
    then to_string (quotient diff 60) ++ codes "m ago"
    else if ltb_ℤ diff (pos 86400)
    then to_string (quotient diff 3600) ++ codes "h ago"
    else to_string (quotient diff 86400) ++ codes "d ago"

abbrev pub is_blank : ℕ → Bool
is_blank c = c == b' ' || c == b'\t'

unfoldable pub trim_front : Bytes → Bytes
trim_front [] = []
trim_front (c ∷ s) = let more = trim_front s in if is_blank c then more else c ∷ s

-- What is left in front of the blanks at the end, and `c` before it.
drop_last : ℕ → Bytes → Bytes
drop_last c [] = if is_blank c then [] else c ∷ []
drop_last c (d ∷ s) = c ∷ d ∷ s

-- The loop that pops the last character.
unfoldable pub trim_back : Bytes → Bytes
unfolding drop_last
trim_back [] = []
trim_back (c ∷ s) = drop_last c (trim_back s)

unfoldable pub trimmed : Bytes → Bytes
unfolding trim_front trim_back
trimmed s = trim_back (trim_front s)
