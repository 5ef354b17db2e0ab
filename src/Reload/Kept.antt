-- ===== src/Reload/Kept.antt =====
-- src/main.cpp: no tab is lost or doubled by a reload, and one without changes keeps them all.
use bitcoin_tui.Base.{
  ℕ, ◌+◌, Bool, true, Bool-cases, List, [], ◌∷◌, ◌++◌, append-nil, Bytes, same_bytes,
  same_bytes_refl, if◌then◌else◌, Option, none, some, inl, inr, ◌≡◌, refl, ◌∙◌, ap, arith,
}
use bitcoin_tui.Reload.{
  spec_path, LuaTabs, AutoTabs, Rebuilt, extract, in_front, with_tab, is_kept, leftovers, rebuild,
  unfinished, reload,
}

-- How many of the tabs pass a test.
abbrev pub occurrences : {Tab : Type 0} → (Tab → Bool) → List Tab → ℕ
occurrences q [] = 0
occurrences q (p ∷ ps) = (if q p then 1 else 0) + occurrences q ps

abbrev pub in_option : {Tab : Type 0} → (Tab → Bool) → Option Tab → ℕ
in_option q none = 0
in_option q (some p) = if q p then 1 else 0

module _ {Tab : Type 0} (t : LuaTabs Tab) (q : Tab → Bool) where
  open t use {script_path, make}

  extract-occurrences :
      (path : Bytes) (pool : List Tab)
      → in_option q (extract t path pool).0 + occurrences q (extract t path pool).1
        ≡ occurrences q pool
  unfolding extract in_front
  extract-occurrences path [] = omega arith
  extract-occurrences path (p ∷ pool) =
      let more = extract-occurrences path pool in
      elim (Bool-cases (same_bytes (script_path p) path)) [
        | inl e ↦ rw e refl
        | inr e ↦ rw e (omega (arith, more))
      ]

  with_tab-occurrences :
      (existing new : Option Tab) (r : Rebuilt Tab)
      → occurrences q (with_tab t existing new r).lua_tab_ptrs + occurrences q r.made
        ≡ in_option q existing
          + occurrences q r.lua_tab_ptrs
          + occurrences q (with_tab t existing new r).made
  unfolding with_tab
  with_tab-occurrences (some existing) new r = omega arith
  with_tab-occurrences none (some new) r = omega arith
  with_tab-occurrences none none r = omega arith

  with_tab-retired :
      (existing new : Option Tab) (r : Rebuilt Tab)
      → (with_tab t existing new r).retired ≡ r.retired
  unfolding with_tab
  with_tab-retired (some existing) new r = refl
  with_tab-retired none (some new) r = refl
  with_tab-retired none none r = refl

  module _ (auto : AutoTabs) where
    leftovers-occurrences :
        (pool : List Tab)
        → (occurrences q (leftovers t auto pool).lua_tab_ptrs
              + occurrences q (leftovers t auto pool).retired
            ≡ occurrences q pool)
          × ((leftovers t auto pool).made ≡ [])
    unfolding leftovers
    leftovers-occurrences [] = (omega arith, refl)
    leftovers-occurrences (p ∷ pool) =
        let more = leftovers-occurrences pool in
        elim (Bool-cases (is_kept t auto p)) [
          | inl e ↦ rw e (omega (arith, more.0), more.1)
          | inr e ↦ rw e (omega (arith, more.0), more.1)
        ]

    -- Of the tabs that there were and those that are made, every one is among the tabs or among those that
    -- are retired behind the reload, and as often as before: none is lost, and none stands in two places.
    pub rebuild-occurrences :
        (specs : List Bytes) (pool : List Tab)
        → occurrences q (rebuild t auto specs pool).lua_tab_ptrs
            + occurrences q (rebuild t auto specs pool).retired
          ≡ occurrences q pool + occurrences q (rebuild t auto specs pool).made
    unfolding rebuild
    rebuild-occurrences [] pool = let h = leftovers-occurrences pool in rw h.1 (omega (arith, h.0))
    rebuild-occurrences (spec ∷ specs) pool =
        let rest = (extract t (spec_path spec) pool).1 in
        let found = (extract t (spec_path spec) pool).0 in
        rw (with_tab-retired found (make spec) (rebuild t auto specs rest)) (
          omega (
            arith,
            rebuild-occurrences specs rest,
            with_tab-occurrences found (make spec) (rebuild t auto specs rest),
            extract-occurrences (spec_path spec) pool,
          ))

module _ {Tab : Type 0} (t : LuaTabs Tab) (auto : AutoTabs) where
  open t use {script_path}

  -- The tabs are those of the specs, in their order.
  abbrev pub SamePaths : List Bytes → List Tab → Type 0
  SamePaths [] [] = Unit
  SamePaths (spec ∷ specs) (p ∷ ps) = (script_path p ≡ spec_path spec) × SamePaths specs ps
  SamePaths _ _ = ⊥

  abbrev pub AllKept : List Tab → Type 0
  AllKept [] = Unit
  AllKept (p ∷ ps) = (is_kept t auto p ≡ true) × AllKept ps

  abbrev all_of_them : List Tab → Rebuilt Tab
  all_of_them ps = record { lua_tab_ptrs = ps; made = []; retired = [] }

  leftovers-AllKept : (ps : List Tab) → AllKept ps → leftovers t auto ps ≡ all_of_them ps
  unfolding leftovers
  leftovers-AllKept [] h = refl
  leftovers-AllKept (p ∷ ps) (h, hs) = rw (h, leftovers-AllKept ps hs) refl

  extract-first :
      (path : Bytes) (p : Tab) (pool : List Tab)
      → script_path p ≡ path
      → extract t path (p ∷ pool) ≡ (some p, pool)
  unfolding extract
  extract-first path p pool e = rw (e, same_bytes_refl path) refl

  rebuild-SamePaths :
      (specs : List Bytes) (ps rest : List Tab)
      → SamePaths specs ps
      → AllKept rest
      → rebuild t auto specs (ps ++ rest) ≡ all_of_them (ps ++ rest)
  unfolding rebuild with_tab
  rebuild-SamePaths [] [] rest h k = leftovers-AllKept rest k
  rebuild-SamePaths [] (p ∷ ps) rest h k = absurd h
  rebuild-SamePaths (spec ∷ specs) [] rest h k = absurd h
  rebuild-SamePaths (spec ∷ specs) (p ∷ ps) rest (e, h) k =
      rw (extract-first (spec_path spec) p (ps ++ rest) e, rebuild-SamePaths specs ps rest h k) refl

  -- When the tabs are those of the specs, in their order, and behind them such that no one
  -- configures and that are kept, a reload leaves all tabs as they are and retires none; only dead tabs whose thread has ended go.
  pub reload-SamePaths :
      (specs : List Bytes) (ps rest dead : List Tab)
      → SamePaths specs ps
      → AllKept rest
      → reload t auto specs (ps ++ rest, dead) ≡ (ps ++ rest, unfinished t auto dead)
  reload-SamePaths specs ps rest dead h k =
      unfold reload in
      (ap (λ r. (r.lua_tab_ptrs, unfinished t auto (dead ++ r.retired)))
          (rebuild-SamePaths specs ps rest h k)
        ∙ ap (λ d. (ps ++ rest, unfinished t auto d)) (append-nil dead))
