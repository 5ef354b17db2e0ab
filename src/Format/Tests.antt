-- ===== src/Format/Tests.antt =====
-- Runs of the helpers of src/format.hpp.
use bitcoin_tui.Base.{codes, pos, negsuc, to_decimal, to_string, ◌≡◌, refl}
use bitcoin_tui.Format.{insert_at, group_loop, grouped, fmt_int, fmt_height, fmt_age, fmt_time_ago}
use bitcoin_tui.Format.Grouping.{in_threes, grouped_lem}

fmt_int_run : fmt_int (negsuc 1234566) ≡ codes "-1,234,567"
unfolding fmt_int grouped group_loop insert_at to_decimal
fmt_int_run = refl

fmt_height_run : fmt_height (pos 840000) ≡ codes "840'000"
unfolding fmt_height grouped group_loop insert_at to_string to_decimal
fmt_height_run = refl

-- The mark stands behind the sign.
fmt_height_minus : fmt_height (negsuc 122) ≡ codes "-'123"
unfolding fmt_height grouped group_loop insert_at to_string to_decimal
fmt_height_minus = refl

fmt_age_run : fmt_age (pos 7325) ≡ codes "2h 2m"
unfolding fmt_age to_string to_decimal
fmt_age_run = refl

fmt_time_ago_run : fmt_time_ago (pos 200000) (pos 1000) ≡ codes "2d ago"
unfolding fmt_time_ago to_string to_decimal
fmt_time_ago_run = refl

grouped_lem_example : grouped b',' (codes "1234567") ≡ in_threes b',' (codes "1234567")
grouped_lem_example = grouped_lem b',' (codes "1234567")
