-- ===== src/Reload/Again.antt =====
-- src/main.cpp: a reload of what has been reloaded.
use bitcoin_tui.Base.{
  Bool, Bool-cases, Option-cases, inl, inr, List, [], ◌∷◌, ◌++◌, Bytes, same_bytes, same_bytes→eq,
  Option, some, ◌≡◌, refl, ◌∙◌, ap, sym,
}
use bitcoin_tui.Json.Value.{Floats, Json}
use bitcoin_tui.Reload.{
  spec_path, LuaTabs, AutoTabs, extract, in_front, with_tab, is_kept, leftovers, rebuild,
  unfinished, reload,
}
use bitcoin_tui.Reload.Kept.{SamePaths, AllKept, reload-SamePaths}
use bitcoin_tui.Reload.Specs.{lua_tabs}
use bitcoin_tui.Reload.Script.{IsPlainSpec, lua_tabs-IsPlainSpec}

module _ {Tab : Type 0} (t : LuaTabs Tab) where
  open t use {script_path, finished, make}

  -- A spec whose tab has the path of the spec.
  abbrev Makes : Bytes → Type 0
  Makes spec = (tab : Tab) × (make spec ≡ some tab) × (script_path tab ≡ spec_path spec)

  extract-path :
      (path : Bytes) (pool : List Tab) (p : Tab)
      → (extract t path pool).0 ≡ some p
      → script_path p ≡ path
  unfolding extract in_front
  extract-path path [] p h = cc
  extract-path path (q ∷ pool) p h = elim (Bool-cases (same_bytes (script_path q) path)) [
    | inl e ↦ cc (same_bytes→eq (script_path q) path e, rw e at h)
    | inr e ↦ extract-path path pool p (rw e at h)
  ]

  abbrev AllMake : List Bytes → Type 0
  AllMake [] = Unit
  AllMake (spec ∷ specs) = Makes spec × AllMake specs

  module _ (auto : AutoTabs) where
    leftovers-kept : (pool : List Tab) → AllKept t auto (leftovers t auto pool).lua_tab_ptrs
    unfolding leftovers
    leftovers-kept [] = tt
    leftovers-kept (p ∷ pool) = elim (Bool-cases (is_kept t auto p)) [
      | inl e ↦ rw e (e, leftovers-kept pool)
      | inr e ↦ rw e (leftovers-kept pool)
    ]

    -- The tabs of the specs stand in their order, and those that are kept behind them.
    abbrev Ordered : List Bytes → List Tab → Type 0
    Ordered specs tabs =
        (ps rest : List Tab) × (tabs ≡ ps ++ rest) × SamePaths t auto specs ps × AllKept t auto rest

    with_front :
        (spec : Bytes) (specs : List Bytes) (p : Tab) (tabs : List Tab)
        → script_path p ≡ spec_path spec
        → Ordered specs tabs
        → Ordered (spec ∷ specs) (p ∷ tabs)
    with_front spec specs p tabs e (ps, rest, eq, same, kept) =
        (p ∷ ps, rest, ap (λ xs. p ∷ xs) eq, (e, same), kept)

    rebuild-Ordered :
        (specs : List Bytes) (pool : List Tab)
        → AllMake specs
        → Ordered specs (rebuild t auto specs pool).lua_tab_ptrs
    unfolding rebuild
    rebuild-Ordered [] pool h =
        ([], (leftovers t auto pool).lua_tab_ptrs, refl, tt, leftovers-kept pool)
    rebuild-Ordered (spec ∷ specs) pool ((tab, makes, path), hs) =
        let front = extract t (spec_path spec) pool in
        let behind = rebuild-Ordered specs front.1 hs in
        elim (Option-cases front.0) [
          | inl e ↦ rw (e, makes) (unfold with_tab in with_front spec specs tab _ path behind)
          | inr (p, e) ↦
              let found = extract-path (spec_path spec) pool p e in
              rw e (unfold with_tab in with_front spec specs p _ found behind)
        ]

    unfinished-unfinished :
        (dead : List Tab) → unfinished t auto (unfinished t auto dead) ≡ unfinished t auto dead
    unfolding unfinished
    unfinished-unfinished [] = refl
    unfinished-unfinished (p ∷ dead) = elim (Bool-cases (finished p)) [
      | inl e ↦ rw e (unfinished-unfinished dead)
      | inr e ↦ rw e (rw (e, unfinished-unfinished dead) refl)
    ]

    reload-AllMake :
        (specs : List Bytes) (tabs : List Tab × List Tab)
        → AllMake specs
        → reload t auto specs (reload t auto specs tabs) ≡ reload t auto specs tabs
    reload-AllMake specs (lua_tab_ptrs, dead) h =
        let r = rebuild t auto specs lua_tab_ptrs in
        let (ps, rest, e, same, kept) = rebuild-Ordered specs lua_tab_ptrs h in
        let gone = unfinished t auto (dead ++ r.retired) in
        let first : reload t auto specs (lua_tab_ptrs, dead) ≡ (ps ++ rest, gone) =
          unfold reload in ap (λ xs. (xs, gone)) e in
        ap (reload t auto specs) first
        ∙ reload-SamePaths t auto specs ps rest gone same kept
        ∙ ap (λ d. (ps ++ rest, d)) (unfinished-unfinished (dead ++ r.retired))
        ∙ sym first

abbrev pub ArePlain : List Bytes → Type 0
ArePlain [] = Unit
ArePlain (spec ∷ specs) = IsPlainSpec spec × ArePlain specs

module _ {S : Type 0} (floats : Floats) (start : Json floats.Double → Option S)
    (has_ended : S → Bool)
    (starts : (options : Json floats.Double) → (s : S) × (start options ≡ some s)) where
  ArePlain-AllMake :
      (specs : List Bytes) → ArePlain specs → AllMake (lua_tabs floats start has_ended) specs
  ArePlain-AllMake [] h = tt
  ArePlain-AllMake (spec ∷ specs) (h, hs) =
      (lua_tabs-IsPlainSpec floats start has_ended spec starts h, ArePlain-AllMake specs hs)

  -- To reload the same configuration twice is to reload it once: whatever tabs there were, the second
  -- reload leaves the tabs, their order and those that are retired as they are. This is for specs with
  -- commas, each with a path and with no option that sets the script again, while no constructor of a
  -- tab throws and no thread ends between the two.
  pub reload-reload :
      (auto : AutoTabs) (specs : List Bytes)
      (tabs : List (Json floats.Double × S) × List (Json floats.Double × S))
      → ArePlain specs
      → reload
          (lua_tabs floats start has_ended)
          auto
          specs
          (reload (lua_tabs floats start has_ended) auto specs tabs)
        ≡ reload (lua_tabs floats start has_ended) auto specs tabs
  reload-reload auto specs tabs h =
      reload-AllMake (lua_tabs floats start has_ended) auto specs tabs (ArePlain-AllMake specs h)
