-- ===== src/LuaTab/Focus.antt =====
-- src/tabs/luatab.cpp: which panel the arrows highlight.
use bitcoin_tui.Base.{
  succ_pos, ℕ, zero, suc, ◌+◌, ◌≤◌, ◌<◌, true, false, Bool-cases, ◌&&◌, List, [], ◌∷◌, length,
  get_elem?, leb_ℤ, ltb_ℤ, none, ◌⊎◌, inl, inr, ℤ, pos, negsuc, ◌+ℤ◌, ◌≡◌, refl, sym, ap, ◌∙◌,
  arith,
}
use bitcoin_tui.LuaTab.State.{LuaPanelRender}
use bitcoin_tui.LuaTab.{is_selectable, selectable_loop}

in_range : (j n : ℕ) → j < n → (leb_ℤ (pos 0) (pos j) && ltb_ℤ (pos j) (pos n)) ≡ true
in_range j n h = ground (arith, h)

past_range : (j n : ℕ) → n ≤ j → (leb_ℤ (pos 0) (pos j) && ltb_ℤ (pos j) (pos n)) ≡ false
past_range j n h = ground (arith, h)

pub le_or_lt : (i j : ℕ) → (i ≤ j) ⊎ (j < i)
le_or_lt zero j = inl (omega arith)
le_or_lt (suc i) zero = inr (omega arith)
le_or_lt (suc i) (suc j) = elim (le_or_lt i j) [
  | inl le ↦ inl (omega (arith, le))
  | inr lt ↦ inr (omega (arith, lt))
]

eq_or_lt : (i j : ℕ) → i ≤ j → (i ≡ j) ⊎ (i < j)
eq_or_lt i j h = elim (le_or_lt j i) [ inl le ↦ inl (omega (arith, le, h)) | inr lt ↦ inr lt ]

before_pos : (n : ℕ) → pos (suc n) +ℤ negsuc 0 ≡ pos n
before_pos n = ground arith

module _ {Data Box : Type 0} where
  -- `i` is the first selectable panel from `start` on, or `other` if there is none.
  abbrev pub FirstFrom : List (LuaPanelRender Data Box) → ℕ → ℤ → ℤ → Type 0
  FirstFrom panels start other i =
      ((i ≡ other) × ((j : ℕ) → start ≤ j → is_selectable (pos j) panels ≡ false))
      ⊎ ((k : ℕ) × (i ≡ pos k)
          × (start ≤ k)
          × (is_selectable (pos k) panels ≡ true)
          × ((j : ℕ) → start ≤ j → j < k → is_selectable (pos j) panels ≡ false))

  -- `i` is the last selectable panel in front of `stop`, or `other` if there is none.
  abbrev pub LastBefore : List (LuaPanelRender Data Box) → ℕ → ℤ → ℤ → Type 0
  LastBefore panels stop other i =
      ((i ≡ other) × ((j : ℕ) → j < stop → is_selectable (pos j) panels ≡ false))
      ⊎ ((k : ℕ) × (i ≡ pos k)
          × (k < stop)
          × (is_selectable (pos k) panels ≡ true)
          × ((j : ℕ) → k < j → j < stop → is_selectable (pos j) panels ≡ false))

  get_elem?-past :
      (panels : List (LuaPanelRender Data Box)) (j : ℕ)
      → length panels ≤ j
      → get_elem? panels j ≡ none
  get_elem?-past [] j h = refl
  get_elem?-past (p ∷ panels) zero h = absurd (omega (arith, h))
  get_elem?-past (p ∷ panels) (suc j) h = get_elem?-past panels j (omega (arith, h))

  pub is_selectable-past :
      (panels : List (LuaPanelRender Data Box)) (j : ℕ)
      → length panels ≤ j
      → is_selectable (pos j) panels ≡ false
  unfolding is_selectable
  is_selectable-past panels j h = rw (is_selectable, get_elem?-past panels j h) refl

  FirstFrom-suc :
      (panels : List (LuaPanelRender Data Box)) (j : ℕ) (i : ℤ)
      → is_selectable (pos j) panels ≡ false
      → FirstFrom panels (suc j) (negsuc 0) i
      → FirstFrom panels j (negsuc 0) i
  FirstFrom-suc panels j i h (inl (e, rest)) = inl (e, from_next)
    where
      from_next : (m : ℕ) → j ≤ m → is_selectable (pos m) panels ≡ false
      from_next m le = elim (eq_or_lt j m le) [
        | inl same ↦ ap (λ x. is_selectable (pos x) panels) (sym same) ∙ h
        | inr lt ↦ rest m lt
      ]
  FirstFrom-suc panels j i h (inr (k, e, le, chosen, rest)) =
      inr (k, e, omega (arith, le), chosen, from_next)
    where
      from_next : (m : ℕ) → j ≤ m → m < k → is_selectable (pos m) panels ≡ false
      from_next m le lt = elim (eq_or_lt j m le) [
        | inl same ↦ ap (λ x. is_selectable (pos x) panels) (sym same) ∙ h
        | inr less ↦ rest m less lt
      ]

  LastBefore-suc :
      (panels : List (LuaPanelRender Data Box)) (j : ℕ) (i : ℤ)
      → is_selectable (pos j) panels ≡ false
      → LastBefore panels j (negsuc 0) i
      → LastBefore panels (suc j) (negsuc 0) i
  LastBefore-suc panels j i h (inl (e, rest)) = inl (e, up_to)
    where
      up_to : (m : ℕ) → m < suc j → is_selectable (pos m) panels ≡ false
      up_to m lt = elim (eq_or_lt m j (omega (arith, lt))) [
        | inl same ↦ ap (λ x. is_selectable (pos x) panels) same ∙ h
        | inr less ↦ rest m less
      ]
  LastBefore-suc panels j i h (inr (k, e, le, chosen, rest)) =
      inr (k, e, omega (arith, le), chosen, up_to)
    where
      up_to : (m : ℕ) → k < m → m < suc j → is_selectable (pos m) panels ≡ false
      up_to m gt lt = elim (eq_or_lt m j (omega (arith, lt))) [
        | inl same ↦ ap (λ x. is_selectable (pos x) panels) same ∙ h
        | inr less ↦ rest m gt less
      ]

  pub selectable_loop-FirstFrom :
      (panels : List (LuaPanelRender Data Box)) (rounds j : ℕ)
      → length panels ≤ j + rounds
      → FirstFrom panels j (negsuc 0) (selectable_loop rounds (pos j) (pos 1) panels)
  unfolding selectable_loop
  selectable_loop-FirstFrom panels zero j h =
      inl (refl, λ i le. is_selectable-past panels i (omega (arith, h, le)))
  selectable_loop-FirstFrom panels (suc rounds) j h =
      let more = selectable_loop-FirstFrom panels rounds (suc j) (omega (arith, h)) in
      elim (le_or_lt (length panels) j) [
        | inl past ↦
            rw (past_range j (length panels) past)
              (inl (refl, λ i le. is_selectable-past panels i (omega (arith, past, le))))
        | inr lt ↦
            rw (in_range j (length panels) lt) (elim (Bool-cases (is_selectable (pos j) panels)) [
              | inl chosen ↦ rw chosen (
                  inr (j, refl, omega arith, chosen, λ i le less. absurd (omega (arith, le, less))))
              | inr none_here ↦ rw (none_here, succ_pos j) (FirstFrom-suc panels j _ none_here more)
            ])
      ]

  selectable_loop-negative :
      (panels : List (LuaPanelRender Data Box)) (rounds : ℕ)
      → selectable_loop rounds (negsuc 0) (negsuc 0) panels ≡ negsuc 0
  unfolding selectable_loop
  selectable_loop-negative panels zero = refl
  selectable_loop-negative panels (suc rounds) = refl

  pub selectable_loop-LastBefore :
      (panels : List (LuaPanelRender Data Box)) (rounds j : ℕ)
      → j ≤ rounds
      → j ≤ length panels
      → LastBefore panels j
          (negsuc 0)
          (selectable_loop rounds (pos j +ℤ negsuc 0) (negsuc 0) panels)
  unfolding selectable_loop
  selectable_loop-LastBefore panels rounds zero h le =
      inl (selectable_loop-negative panels rounds, λ i lt. absurd (omega (arith, lt)))
  selectable_loop-LastBefore panels zero (suc j) h le = absurd (omega (arith, h))
  selectable_loop-LastBefore panels (suc rounds) (suc j) h le =
      let more =
        selectable_loop-LastBefore panels rounds j (omega (arith, h)) (omega (arith, le)) in
      rw (before_pos j, in_range j (length panels) (omega (arith, le)))
        (elim (Bool-cases (is_selectable (pos j) panels)) [
          | inl chosen ↦
              rw chosen
                (inr (j, refl, omega arith, chosen, λ i gt less. absurd (omega (arith, gt, less))))
          | inr none_here ↦ rw none_here (LastBefore-suc panels j _ none_here more)
        ])
