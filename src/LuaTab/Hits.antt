-- ===== src/LuaTab/Hits.antt =====
-- src/tabs/luatab.cpp: the row that is hit again after a click.
use bitcoin_tui.Base.{
  ℕ, zero, suc, ◌+◌, Bool, true, ◌&&◌, List, [], ◌∷◌, leb_ℤ, ℤ, pos, negsuc, ◌≡◌, refl, arith,
}
use bitcoin_tui.LuaTab.State.{
  LuaPanel, table_panel, summary_panel, LuaPanelRender, hit_row, clicked_row,
}
use bitcoin_tui.LuaTab.{select_row, change}

module _ {Data Box : Type 0} (contain : Box → ℤ → ℤ → Bool) where
  hit_row-select_row :
      (row : ℤ) (p : LuaPanelRender Data Box) (x y : ℤ)
      → hit_row contain ((select_row row p).panel) ((select_row row p).row_hits) x y
        ≡ hit_row contain p.panel p.row_hits x y
  unfolding select_row hit_row
  hit_row-select_row row p x y = by_kind p.panel refl
    where
      by_kind :
          (q : LuaPanel Data)
          → p.panel ≡ q
          → hit_row contain ((select_row row p).panel) ((select_row row p).row_hits) x y
            ≡ hit_row contain p.panel p.row_hits x y
      by_kind (table_panel table cur) e = rw e refl
      by_kind summary_panel e = rw e refl

  pub clicked_row-change :
      (row : ℤ) (i pi : ℕ) (panels : List (LuaPanelRender Data Box)) (x y : ℤ)
      → clicked_row contain pi (change (select_row row) i panels) x y
        ≡ clicked_row contain pi panels x y
  unfolding clicked_row change
  clicked_row-change row i pi [] x y = refl
  clicked_row-change row zero pi (p ∷ panels) x y = rw (hit_row-select_row row p x y) refl
  clicked_row-change row (suc i) pi (p ∷ panels) x y =
      rw (clicked_row-change row i (suc pi) panels x y) refl

pub same_index : (i j : ℕ) → i ≡ 0 + j → i ≡ j
same_index i j h = omega (arith, h)

pub same_self : (i : ℤ) → (leb_ℤ i i && leb_ℤ i i) ≡ true
same_self (pos i) = ground arith
same_self (negsuc i) = ground arith
