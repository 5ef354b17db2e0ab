-- ===== src/ConfigFile/Others.antt =====
-- src/tabs/luatab.cpp: what a write of config.toml keeps, and the file as a whole.
use bitcoin_tui.Base.{
  Bool, true, false, Bool-cases, not, inl, inr, List, [], ◌∷◌, ◌++◌, Bytes, codes, compare_bytes,
  map, append_assoc, append-nil, if◌then◌else◌, Option, none, some, to_string, ◌≡◌, refl, ◌∙◌, ap,
  sym, arith,
}
use bitcoin_tui.Config.{pop_return, split_at}
use bitcoin_tui.Format.{trimmed, trim_front}
use bitcoin_tui.ConfigFile.Text.{toml_quote}
use bitcoin_tui.ConfigFile.Keys.{entry-tab, entry-allow_rpc, entry-refresh, entry-debug_file}
use bitcoin_tui.ConfigFile.{
  is_managed, managed, emit_elements, emit_array, emit_refresh, emit_settingstab, emit_debug,
  emit_debug_file, emit_key, count, write_line, write_lines, write_rest, old_lines, new_lines,
}
use bitcoin_tui.ConfigFile.Table.{
  LuaRef, boolean, number, string, table, LuaConfig, Key, tab_key, allow_rpc_key, refresh_key,
  settingstab_key, debug_key, debug_file_key, entry, classify,
}

-- A line that holds no managed key.
abbrev is_other_entry : Option (Key × Bytes) → Bool
is_other_entry none = true
is_other_entry (some (k, v)) = not (is_managed k)

abbrev pub is_other : Bytes → Bool
is_other line = is_other_entry (entry line)

pub other_lines : List Bytes → List Bytes
other_lines [] = []
other_lines (line ∷ ls) = if is_other line then line ∷ other_lines ls else other_lines ls

other_lines-append :
    (xs ys : List Bytes) → other_lines (xs ++ ys) ≡ other_lines xs ++ other_lines ys
unfolding other_lines
other_lines-append [] ys = refl
other_lines-append (x ∷ xs) ys = ground (arith, other_lines-append xs ys)

other_lines-tabs : (arr : List (Option Bytes)) → other_lines (emit_elements (codes "tab") arr) ≡ []
unfolding other_lines emit_elements is_managed
other_lines-tabs [] = refl
other_lines-tabs (none ∷ arr) = other_lines-tabs arr
other_lines-tabs (some e ∷ arr) = rw (entry-tab (toml_quote e)) (other_lines-tabs arr)

other_lines-rpcs :
    (arr : List (Option Bytes)) → other_lines (emit_elements (codes "allow-rpc") arr) ≡ []
unfolding other_lines emit_elements is_managed
other_lines-rpcs [] = refl
other_lines-rpcs (none ∷ arr) = other_lines-rpcs arr
other_lines-rpcs (some e ∷ arr) = rw (entry-allow_rpc (toml_quote e)) (other_lines-rpcs arr)

other_lines-emit_array :
    (r : LuaRef)
    → (other_lines (emit_array (codes "tab") r) ≡ [])
      × (other_lines (emit_array (codes "allow-rpc") r) ≡ [])
unfolding other_lines emit_array
other_lines-emit_array (table arr) = (other_lines-tabs arr, other_lines-rpcs arr)
other_lines-emit_array _ = (refl, refl)

other_lines-emit_refresh : (r : LuaRef) → other_lines (emit_refresh r) ≡ []
unfolding other_lines emit_refresh is_managed
other_lines-emit_refresh (number i) = rw (entry-refresh (to_string i)) refl
other_lines-emit_refresh _ = refl

other_lines-emit_settingstab : (r : LuaRef) → other_lines (emit_settingstab r) ≡ []
unfolding other_lines emit_settingstab is_managed entry classify split_at trimmed trim_front
    compare_bytes
other_lines-emit_settingstab (boolean false) = refl
other_lines-emit_settingstab (boolean true) = refl
other_lines-emit_settingstab _ = refl

other_lines-emit_debug : (r : LuaRef) → other_lines (emit_debug r) ≡ []
unfolding other_lines emit_debug is_managed entry classify split_at trimmed trim_front compare_bytes
other_lines-emit_debug (boolean true) = refl
other_lines-emit_debug (boolean false) = refl
other_lines-emit_debug _ = refl

other_lines-emit_debug_file : (r : LuaRef) → other_lines (emit_debug_file r) ≡ []
unfolding other_lines emit_debug_file is_managed
other_lines-emit_debug_file (string []) = refl
other_lines-emit_debug_file (string (c ∷ s)) = rw (entry-debug_file (toml_quote (c ∷ s))) refl
other_lines-emit_debug_file _ = refl

other_lines-emit_key : (cfg : LuaConfig) (k : Key) → other_lines (emit_key cfg k) ≡ []
unfolding emit_key
other_lines-emit_key cfg tab_key = (other_lines-emit_array cfg.tabs).0
other_lines-emit_key cfg allow_rpc_key = (other_lines-emit_array cfg.allow_rpc).1
other_lines-emit_key cfg refresh_key = other_lines-emit_refresh cfg.refresh
other_lines-emit_key cfg settingstab_key = other_lines-emit_settingstab cfg.settingstab
other_lines-emit_key cfg debug_key = other_lines-emit_debug cfg.debug
other_lines-emit_key cfg debug_file_key = other_lines-emit_debug_file cfg.debug_file
other_lines-emit_key cfg _ = unfold other_lines in refl

-- The lines of other keys among the lines so far are those of the old lines so far.
write_line-other :
    (cfg : LuaConfig) (line : Bytes) (o : Option (Key × Bytes)) (out : List Bytes)
    (written : List Key)
    → entry line ≡ o
    → other_lines (write_line cfg line o (out, written)).0
      ≡ other_lines out ++ other_lines (line ∷ [])
unfolding write_line other_lines
write_line-other cfg line none out written e = other_lines-append out (line ∷ []) ∙ rw e refl
write_line-other cfg line (some (k, v)) out written e = elim (Bool-cases (is_managed k)) [
  | inl m ↦ elim (Bool-cases (count k written)) [
    | inl c ↦ rw (e, m, c, append-nil (other_lines out)) refl
    | inr c ↦
        rw (e, m, c)
          (other_lines-append out (emit_key cfg k)
            ∙ ap (λ xs. other_lines out ++ xs) (other_lines-emit_key cfg k))
  ]
  | inr m ↦ rw (e, m) (other_lines-append out (line ∷ []) ∙ rw (e, m) refl)
]

write_lines-other :
    (cfg : LuaConfig) (existing out : List Bytes) (written : List Key)
    → other_lines (write_lines cfg existing (out, written)).0
      ≡ other_lines out ++ other_lines (map pop_return existing)
unfolding write_lines
write_lines-other cfg [] out written = unfold other_lines in sym (append-nil (other_lines out))
write_lines-other cfg (l ∷ existing) out written =
    let line = pop_return l in
    let st = write_line cfg line (entry line) (out, written) in
    write_lines-other cfg existing st.0 st.1
    ∙ ap (λ xs. xs ++ other_lines (map pop_return existing))
        (write_line-other cfg line (entry line) out written refl)
    ∙ append_assoc (other_lines out) (other_lines (line ∷ []))
        (other_lines (map pop_return existing))
    ∙ ap (λ xs. other_lines out ++ xs)
        (sym (other_lines-append (line ∷ []) (map pop_return existing)))

write_rest-other :
    (cfg : LuaConfig) (keys : List Key) (out : List Bytes) (written : List Key)
    → other_lines (write_rest cfg keys (out, written)) ≡ other_lines out
unfolding write_rest
write_rest-other cfg [] out written = refl
write_rest-other cfg (k ∷ keys) out written = elim (Bool-cases (count k written)) [
  | inl c ↦ rw c (write_rest-other cfg keys out written)
  | inr c ↦ rw c (
      write_rest-other cfg keys (out ++ emit_key cfg k) written
      ∙ other_lines-append out (emit_key cfg k)
      ∙ ap (λ xs. other_lines out ++ xs) (other_lines-emit_key cfg k)
      ∙ append-nil (other_lines out))
]

pub new_lines-other :
    (cfg : LuaConfig) (old : Option Bytes)
    → other_lines (new_lines cfg old) ≡ other_lines (map pop_return (old_lines old))
unfolding new_lines
new_lines-other cfg old =
    let st = write_lines cfg (old_lines old) ([], []) in
    write_rest-other cfg managed st.0 st.1
    ∙ write_lines-other cfg (old_lines old) [] []
    ∙ unfold other_lines in refl
