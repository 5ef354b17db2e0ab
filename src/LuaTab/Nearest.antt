-- ===== src/LuaTab/Nearest.antt =====
-- src/tabs/luatab.cpp: the panel that next_selectable finds.
use bitcoin_tui.Base.{
  succ_pos, ℕ, suc, ◌≤◌, ◌<◌, Bool, true, false, List, length, leb_ℤ, ◌⊎◌, inl, inr, ℤ, pos, negsuc,
  ◌≡◌, ◌≢◌, refl, sym, ap, ◌∙◌, arith,
}
use bitcoin_tui.LuaTab.State.{LuaPanelRender}
use bitcoin_tui.LuaTab.Focus.{
  FirstFrom, LastBefore, is_selectable-past, selectable_loop-FirstFrom, selectable_loop-LastBefore,
  le_or_lt,
}
use bitcoin_tui.LuaTab.{is_selectable, next_selectable}

-- Where the search for the next panel starts and that for the one before stops.
abbrev pub behind : ℤ → ℕ
behind (negsuc i) = 0
behind (pos k) = suc k

abbrev pub in_front : ℕ → ℤ → ℕ
in_front n (negsuc i) = n
in_front n (pos k) = k

pub true≢false : {b : Bool} → b ≡ true → b ≢ false
true≢false h e = cc

module _ {Data Box : Type 0} where
  -- No panel is highlighted, or one of these is.
  abbrev pub InFocus : List (LuaPanelRender Data Box) → ℤ → Type 0
  InFocus panels f = (f ≡ negsuc 0) ⊎ ((k : ℕ) × (f ≡ pos k) × (k < length panels))

  pub next_selectable-down :
      (panels : List (LuaPanelRender Data Box)) (f : ℤ)
      → InFocus panels f
      → FirstFrom panels (behind f) (negsuc 0) (next_selectable f (pos 1) panels)
  unfolding next_selectable
  next_selectable-down panels f (inl e) =
      rw e (selectable_loop-FirstFrom panels (length panels) 0 (omega arith))
  next_selectable-down panels f (inr (k, e, lt)) =
      rw (e, succ_pos k) (selectable_loop-FirstFrom panels (length panels) (suc k) (omega arith))

  pub next_selectable-up :
      (panels : List (LuaPanelRender Data Box)) (k : ℕ)
      → k ≤ length panels
      → LastBefore panels k (negsuc 0) (next_selectable (pos k) (negsuc 0) panels)
  unfolding next_selectable
  next_selectable-up panels k le = selectable_loop-LastBefore panels (length panels) k le le

  selectable_lt :
      (panels : List (LuaPanelRender Data Box)) (k : ℕ)
      → is_selectable (pos k) panels ≡ true
      → k < length panels
  selectable_lt panels k h = elim (le_or_lt (length panels) k) [
    | inl past ↦ absurd (true≢false h (is_selectable-past panels k past))
    | inr lt ↦ lt
  ]

  FirstFrom-InFocus :
      (panels : List (LuaPanelRender Data Box)) (start : ℕ) (i : ℤ)
      → FirstFrom panels start (negsuc 0) i
      → InFocus panels i
  FirstFrom-InFocus panels start i (inl (e, rest)) = inl e
  FirstFrom-InFocus panels start i (inr (k, e, le, chosen, rest)) =
      inr (k, e, selectable_lt panels k chosen)

  LastBefore-InFocus :
      (panels : List (LuaPanelRender Data Box)) (stop : ℕ) (i : ℤ)
      → LastBefore panels stop (negsuc 0) i
      → InFocus panels i
  LastBefore-InFocus panels stop i (inl (e, rest)) = inl e
  LastBefore-InFocus panels stop i (inr (k, e, lt, chosen, rest)) =
      inr (k, e, selectable_lt panels k chosen)

  pub next_selectable-InFocus_down :
      (panels : List (LuaPanelRender Data Box)) (f : ℤ)
      → InFocus panels f
      → InFocus panels (next_selectable f (pos 1) panels)
  next_selectable-InFocus_down panels f h =
      FirstFrom-InFocus panels (behind f) _ (next_selectable-down panels f h)

  pub next_selectable-InFocus_last :
      (panels : List (LuaPanelRender Data Box)) (k : ℕ)
      → k ≤ length panels
      → InFocus panels (next_selectable (pos k) (negsuc 0) panels)
  next_selectable-InFocus_last panels k h =
      LastBefore-InFocus panels k _ (next_selectable-up panels k h)

  pub next_selectable-InFocus_up :
      (panels : List (LuaPanelRender Data Box)) (f : ℤ)
      → InFocus panels f
      → leb_ℤ (pos 0) f ≡ true
      → InFocus panels (next_selectable f (negsuc 0) panels)
  next_selectable-InFocus_up panels f (inl e) h =
      absurd (true≢false (ap (leb_ℤ (pos 0)) (sym e) ∙ h) refl)
  next_selectable-InFocus_up panels f (inr (k, e, lt)) h =
      rw e (next_selectable-InFocus_last panels k (omega (arith, lt)))
