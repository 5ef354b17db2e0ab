-- ===== src/ConfigFile/Keys.antt =====
-- src/tabs/luatab.cpp: the key of each line that the writer writes.
use bitcoin_tui.Base.{
  [], ◌∷◌, ◌++◌, Bytes, codes, compare_bytes, some, append_assoc, ◌≡◌, refl, arith,
}
use bitcoin_tui.Config.{pop_return, split_at}
use bitcoin_tui.Format.{trim_front, trimmed}
use bitcoin_tui.ConfigFile.Text.{escaped, toml_quote}
use bitcoin_tui.ConfigFile.Lines.{pop_return-keeps}
use bitcoin_tui.ConfigFile.Table.{
  ConfigTable, entry, classify, unblanked, read_entry, tab_key, allow_rpc_key, refresh_key,
  debug_file_key,
}

-- The reader's work on one line.
abbrev pub read_line : Bytes → ConfigTable → ConfigTable
read_line l t = read_entry (entry (pop_return l)) t

pub quoted-kept : (front v : Bytes) → pop_return (front ++ toml_quote v) ≡ front ++ toml_quote v
unfolding toml_quote
quoted-kept front v = ground (
  arith,
  append_assoc front (b'"' ∷ escaped v) (b'"' ∷ []),
  pop_return-keeps (front ++ b'"' ∷ escaped v) b'"',
)

pub entry-tab : (s : Bytes) → entry (codes "tab = " ++ s) ≡ some (tab_key, b' ' ∷ s)
unfolding entry classify split_at trimmed trim_front compare_bytes
entry-tab s = refl

pub entry-allow_rpc :
    (s : Bytes) → entry (codes "allow-rpc = " ++ s) ≡ some (allow_rpc_key, b' ' ∷ s)
unfolding entry classify split_at trimmed trim_front compare_bytes
entry-allow_rpc s = refl

pub entry-refresh : (s : Bytes) → entry (codes "refresh = " ++ s) ≡ some (refresh_key, b' ' ∷ s)
unfolding entry classify split_at trimmed trim_front compare_bytes
entry-refresh s = refl

pub entry-debug_file :
    (s : Bytes) → entry (codes "debug-file = " ++ s) ≡ some (debug_file_key, b' ' ∷ s)
unfolding entry classify split_at trimmed trim_front compare_bytes
entry-debug_file s = refl

pub unblanked-quote : (v : Bytes) → unblanked (b' ' ∷ toml_quote v) ≡ toml_quote v
unfolding unblanked trim_front toml_quote
unblanked-quote v = refl
