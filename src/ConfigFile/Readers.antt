-- ===== src/ConfigFile/Readers.antt =====
-- src/tabs/luatab.cpp: what any reader of config.toml, line by line, makes of a file that
-- write_config_table has written.
use bitcoin_tui.Base.{
  true, false, Bool-cases, inl, inr, List, [], ◌∷◌, ◌++◌, Bytes, if◌then◌else◌, Option, none, some,
  ◌≡◌, refl, ◌∙◌, ap, sym,
}
use bitcoin_tui.Config.{pop_return}
use bitcoin_tui.ConfigFile.{
  is_managed, managed, emit_key, count, write_line, write_lines, write_rest, old_lines, new_lines,
}
use bitcoin_tui.ConfigFile.Table.{
  LuaConfig, Key, tab_key, allow_rpc_key, refresh_key, settingstab_key, debug_key, debug_file_key,
  entry,
}

-- No line has a carriage return left once one has been taken off its end.
abbrev pub EndOnce : List Bytes → Type 0
EndOnce [] = Unit
EndOnce (l ∷ ls) = (pop_return (pop_return l) ≡ pop_return l) × EndOnce ls

-- A reader with states `St`: `run` goes through the lines, `step` handles one. `shown written t` is
-- the state `t` with the values of the configuration under the keys that have been written.
pub record Reader (cfg : LuaConfig) (St : Type 0) : Type 0 where
  pub run : St → List Bytes → St
  pub step : Option (Key × Bytes) → St → St
  pub shown : List Key → St → St
  pub run_nil : (t : St) → run t [] ≡ t
  pub run_cons :
      (t : St) (l : Bytes) (ls : List Bytes)
      → run t (l ∷ ls) ≡ run (step (entry (pop_return l)) t) ls
  pub no_entry : (t : St) → step none t ≡ t
  pub on_other :
      (k : Key) (v : Bytes) (written : List Key) (t : St)
      → is_managed k ≡ false
      → step (some (k, v)) (shown written t) ≡ shown written (step (some (k, v)) t)
  pub on_managed :
      (k : Key) (v : Bytes) (written : List Key) (t : St)
      → is_managed k ≡ true
      → shown written t ≡ shown written (step (some (k, v)) t)
  pub on_emitted :
      (k : Key) (written : List Key) (t : St)
      → is_managed k ≡ true
      → count k written ≡ false
      → run (shown written t) (emit_key cfg k) ≡ shown (k ∷ written) t
  pub on_again :
      (k : Key) (done : List Key) (t : St) → count k done ≡ true → shown done t ≡ shown (k ∷ done) t

module _ {cfg : LuaConfig} {St : Type 0} (r : Reader cfg St) (start : St) where
  open r use {run, step, shown}

  run-append : (t : St) (xs ys : List Bytes) → run t (xs ++ ys) ≡ run (run t xs) ys
  run-append t [] ys = rw (r.run_nil t) refl
  run-append t (x ∷ xs) ys =
      rw (r.run_cons t x (xs ++ ys), r.run_cons t x xs)
        (run-append (step (entry (pop_return x)) t) xs ys)

  -- The lines so far read as the keys written so far, and otherwise as the old lines so far.
  abbrev Agrees : List Bytes × List Key → St → Type 0
  Agrees (out, written) t = run start out ≡ shown written t

  kept-Agrees :
      (line : Bytes) (out : List Bytes) (written : List Key) (t : St)
      → step (entry (pop_return line)) (shown written t)
        ≡ shown written (step (entry (pop_return line)) t)
      → Agrees (out, written) t
      → Agrees (out ++ line ∷ [], written) (step (entry (pop_return line)) t)
  kept-Agrees line out written t e h =
      run-append start out (line ∷ [])
      ∙ r.run_cons (run start out) line []
      ∙ r.run_nil (step (entry (pop_return line)) (run start out))
      ∙ ap (step (entry (pop_return line))) h
      ∙ e

  emitted-Agrees :
      (k : Key) (out : List Bytes) (written : List Key) (t : St)
      → is_managed k ≡ true
      → count k written ≡ false
      → Agrees (out, written) t
      → Agrees (out ++ emit_key cfg k, k ∷ written) t
  emitted-Agrees k out written t m c h =
      run-append start out (emit_key cfg k)
      ∙ ap (λ u. run u (emit_key cfg k)) h
      ∙ r.on_emitted k written t m c

  entry-Agrees :
      (line : Bytes) (o : Option (Key × Bytes)) (out : List Bytes) (written : List Key) (t : St)
      → entry (pop_return line) ≡ o
      → Agrees (out, written) t
      → Agrees (write_line cfg line o (out, written)) (step o t)
  unfolding write_line
  entry-Agrees line none out written t e h =
      rw e at
        (kept-Agrees line out written t (rw (e, r.no_entry (shown written t), r.no_entry t) refl) h)
  entry-Agrees line (some (k, v)) out written t e h = elim (Bool-cases (is_managed k)) [
    | inl m ↦ elim (Bool-cases (count k written)) [
      | inl c ↦ rw (m, c) (h ∙ r.on_managed k v written t m)
      | inr c ↦
          rw (m, c)
            (emitted-Agrees k out written (step (some (k, v)) t) m c
              (h ∙ r.on_managed k v written t m))
    ]
    | inr m ↦ rw m (rw e at (kept-Agrees line out written t (rw e (r.on_other k v written t m)) h))
  ]

  lines-Agrees :
      (existing out : List Bytes) (written : List Key) (t : St)
      → EndOnce existing
      → Agrees (out, written) t
      → Agrees (write_lines cfg existing (out, written)) (run t existing)
  unfolding write_lines
  lines-Agrees [] out written t ends h = h ∙ ap (shown written) (sym (r.run_nil t))
  lines-Agrees (l ∷ existing) out written t ends h =
      let line = pop_return l in
      let st = write_line cfg line (entry line) (out, written) in
      lines-Agrees existing st.0 st.1 (step (entry line) t) ends.1
        (entry-Agrees line (entry line) out written t (ap entry ends.0) h)
      ∙ ap (shown _) (sym (r.run_cons t l existing))

  rest-Agrees :
      (k : Key) (out : List Bytes) (written done : List Key) (t : St)
      → is_managed k ≡ true
      → count k done ≡ count k written
      → Agrees (out, done) t
      → Agrees ((if count k written then out else out ++ emit_key cfg k), k ∷ done) t
  rest-Agrees k out written done t m same h = elim (Bool-cases (count k written)) [
    | inl c ↦ rw c (h ∙ r.on_again k done t (same ∙ c))
    | inr c ↦ rw c (emitted-Agrees k out done t m (same ∙ c) h)
  ]

  -- The managed keys behind those that had been written before.
  abbrev pub all_written : List Key → List Key
  all_written w =
      tab_key ∷ settingstab_key ∷ refresh_key ∷ debug_file_key ∷ debug_key ∷ allow_rpc_key ∷ w

  managed-Agrees :
      (out : List Bytes) (written : List Key) (t : St)
      → Agrees (out, written) t
      → Agrees (write_rest cfg managed (out, written), all_written written) t
  unfolding write_rest is_managed
  managed-Agrees out w t h =
      let d1 = allow_rpc_key ∷ w in
      let d2 = debug_key ∷ d1 in
      let d3 = debug_file_key ∷ d2 in
      let d4 = refresh_key ∷ d3 in
      let d5 = settingstab_key ∷ d4 in
      let a1 = rest-Agrees allow_rpc_key out w w t refl refl h in
      let a2 = rest-Agrees debug_key _ w d1 t refl refl a1 in
      let a3 = rest-Agrees debug_file_key _ w d2 t refl refl a2 in
      let a4 = rest-Agrees refresh_key _ w d3 t refl refl a3 in
      let a5 = rest-Agrees settingstab_key _ w d4 t refl refl a4 in
      rest-Agrees tab_key _ w d5 t refl refl a5

  -- What is read of the new lines: the values of the configuration, over what is read of the old
  -- lines.
  pub run-new_lines :
      (old : Option Bytes)
      → start ≡ shown [] start
      → EndOnce (old_lines old)
      → (written : List Key) × (run start (new_lines cfg old)
          ≡ shown (all_written written) (run start (old_lines old)))
  unfolding new_lines
  run-new_lines old e ends =
      let st = write_lines cfg (old_lines old) ([], []) in
      (
        st.1,
        managed-Agrees st.0 st.1 (run start (old_lines old))
            (lines-Agrees (old_lines old) [] [] start ends (r.run_nil start ∙ e)),
      )
