-- ===== src/LuaThread/Map.antt =====
-- std::map with numbers for keys: a list in the order of the keys.
use bitcoin_tui.Base.{ℕ, List, [], ◌∷◌, ◌==◌, ltb, if◌then◌else◌, Option, none, some}

module _ {A : Type 0} where
  -- A key that is there keeps what it has.
  unfoldable pub insert : ℕ → A → List (ℕ × A) → List (ℕ × A)
  insert k a [] = (k, a) ∷ []
  insert k a ((j, b) ∷ m) =
      let rest = insert k a m in
      if ltb k j then (k, a) ∷ (j, b) ∷ m else if k == j then (j, b) ∷ m else (j, b) ∷ rest

  unfoldable pub find : ℕ → List (ℕ × A) → Option A
  find k [] = none
  find k ((j, b) ∷ m) = let rest = find k m in if k == j then some b else rest

  unfoldable pub erase : ℕ → List (ℕ × A) → List (ℕ × A)
  erase k [] = []
  erase k ((j, b) ∷ m) = let rest = erase k m in if k == j then m else (j, b) ∷ rest
