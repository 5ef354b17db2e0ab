-- ===== src/LuaThread/Wake.antt =====
-- src/tabs/luatab.cpp: what btcui_wake does to the timers.
use bitcoin_tui.Base.{
  ℕ, suc, ◌<◌, Bool-cases, List, [], ◌∷◌, ◌==◌, none, some, inl, inr, ◌≡◌, ◌≢◌, refl, ◌∙◌, ap, sym,
  arith,
}
use bitcoin_tui.LuaThread.Map.{insert, erase}
use bitcoin_tui.LuaThread.State.{LuaTimer, LuaThread, key_of, set_wake, wake}

-- The keys rise, all of them above `k`.
abbrev pub Above : {A : Type 0} → ℕ → List (ℕ × A) → Type 0
Above k [] = Unit
Above k ((j, a) ∷ m) = (k < j) × Above j m

Above-le : {A : Type 0} (i k : ℕ) (m : List (ℕ × A)) → i < suc k → Above k m → Above i m
Above-le i k [] h a = tt
Above-le i k ((j, x) ∷ m) h a = (omega (arith, a.0), a.1)

Above-erase : {A : Type 0} (i k : ℕ) (m : List (ℕ × A)) → Above k m → Above k (erase i m)
unfolding erase
Above-erase i k [] a = tt
Above-erase i k ((j, x) ∷ m) a =
    ground (arith, a.0, Above-erase i j m a.1, Above-le k j m (omega (arith, a.0)) a.1)

insert-front : {A : Type 0} (x : A) (m : List (ℕ × A)) → Above 0 m → insert 0 x m ≡ (0, x) ∷ m
unfolding insert
insert-front x [] a = refl
insert-front x ((j, y) ∷ m) a = ground (arith, a.0)

some≢none : {A : Type 0} {a : A} → some a ≢ none
some≢none h = cc

module _ {C : Type 0} where
  -- No two timers have one number.
  abbrev pub UniqueIds : List (ℕ × LuaTimer C) → Type 0
  UniqueIds [] = Unit
  UniqueIds ((k, timer) ∷ m) = (key_of timer.id m ≡ none) × UniqueIds m

  key_of-Above :
      (id lo k : ℕ) (timer : LuaTimer C) (m : List (ℕ × LuaTimer C))
      → Above lo m
      → key_of id m ≡ some (k, timer)
      → lo < k
  unfolding key_of
  key_of-Above id lo k timer [] a h = cc
  key_of-Above id lo k timer ((j, x) ∷ m) a h = elim (Bool-cases (x.id == id)) [
    | inl e ↦ ground (arith, a.0)
    | inr e ↦ omega (arith, a.0, key_of-Above id j k timer m a.1 (rw e at h))
  ]

  -- To take one timer out leaves the others.
  key_of-erase :
      (id other lo k : ℕ) (timer : LuaTimer C) (m : List (ℕ × LuaTimer C))
      → Above lo m
      → key_of id m ≡ some (k, timer)
      → other ≢ id
      → key_of other (erase k m) ≡ key_of other m
  unfolding key_of erase
  key_of-erase id other lo k timer [] a h ne = cc
  key_of-erase id other lo k timer ((j, x) ∷ m) a h ne = elim (Bool-cases (x.id == id)) [
    | inl e ↦ ground (arith, ne, e, h)
    | inr e ↦ ground (
      arith,
      e,
      key_of-Above id j k timer m a.1 (rw e at h),
      key_of-erase id other j k timer m a.1 (rw e at h) ne,
    )
  ]

  -- And leaves no other of its number.
  key_of-erase_self :
      (id lo k : ℕ) (timer : LuaTimer C) (m : List (ℕ × LuaTimer C))
      → Above lo m
      → UniqueIds m
      → key_of id m ≡ some (k, timer)
      → key_of id (erase k m) ≡ none
  unfolding key_of erase
  key_of-erase_self id lo k timer [] a u h = cc
  key_of-erase_self id lo k timer ((j, x) ∷ m) a u h = elim (Bool-cases (x.id == id)) [
    | inl e ↦ ground (arith, u.0, e, h)
    | inr e ↦ ground (
      arith,
      e,
      key_of-Above id j k timer m a.1 (rw e at h),
      key_of-erase_self id j k timer m a.1 u.1 (rw e at h),
    )
  ]

  key_of-id :
      (id k : ℕ) (timer : LuaTimer C) (m : List (ℕ × LuaTimer C))
      → key_of id m ≡ some (k, timer)
      → timer.id ≡ id
  unfolding key_of
  key_of-id id k timer [] h = cc
  key_of-id id k timer ((j, x) ∷ m) h = elim (Bool-cases (x.id == id)) [
    | inl e ↦ ground (arith, e, h)
    | inr e ↦ key_of-id id k timer m (rw e at h)
  ]

  key_of-first :
      (id : ℕ) (timer : LuaTimer C) (m : List (ℕ × LuaTimer C))
      → timer.id ≡ id
      → key_of id ((0, timer) ∷ m) ≡ some (0, timer)
  unfolding key_of
  key_of-first id timer m e = ground (arith, e)

  key_of-next :
      (id : ℕ) (timer : LuaTimer C) (m : List (ℕ × LuaTimer C))
      → timer.id ≢ id
      → key_of id ((0, timer) ∷ m) ≡ key_of id m
  unfolding key_of
  key_of-next id timer m ne = ground (arith, ne)

  erase-next :
      (k : ℕ) (timer : LuaTimer C) (m : List (ℕ × LuaTimer C))
      → 0 < k
      → erase k ((0, timer) ∷ m) ≡ (0, timer) ∷ erase k m
  unfolding erase
  erase-next k timer m h = ground arith

  insert-taken :
      (x y : LuaTimer C) (m : List (ℕ × LuaTimer C)) → insert 0 x ((0, y) ∷ m) ≡ (0, y) ∷ m
  unfolding insert
  insert-taken x y m = refl

  key_of-erase-none :
      (id k : ℕ) (m : List (ℕ × LuaTimer C)) → key_of id m ≡ none → key_of id (erase k m) ≡ none
  unfolding key_of erase
  key_of-erase-none id k [] h = refl
  key_of-erase-none id k ((j, x) ∷ m) h = elim (Bool-cases (x.id == id)) [
    | inl e ↦ absurd (some≢none (rw e at h))
    | inr e ↦ ground (arith, e, h, key_of-erase-none id k m (rw e at h))
  ]

  UniqueIds-erase : (k : ℕ) (m : List (ℕ × LuaTimer C)) → UniqueIds m → UniqueIds (erase k m)
  unfolding erase
  UniqueIds-erase k [] u = tt
  UniqueIds-erase k ((j, x) ∷ m) u =
      ground (arith, key_of-erase-none x.id k m u.0, UniqueIds-erase k m u.1)

module _ {D C Co W : Type 0} where
  wake-timer :
      (id k : ℕ) (timer : LuaTimer C) (st : LuaThread D C Co W)
      → key_of id st.timers ≡ some (k, timer)
      → wake id st ≡ some (record st { timers = insert 0 timer (erase k st.timers) })
  unfolding wake insert
  wake-timer id k timer st h = rw (h, wake) refl

  wake-none :
      (id : ℕ) (st : LuaThread D C Co W)
      → key_of id st.timers ≡ none
      → set_wake id st.pending ≡ none
      → wake id st ≡ none
  unfolding wake
  wake-none id st h g = rw (h, g, wake) refl

  -- A timer that is woken is the first to fall due, and every other keeps its time: while every timer
  -- has a time of its own, and none has been woken before.
  pub wake_lem :
      (id k : ℕ) (timer : LuaTimer C) (st : LuaThread D C Co W)
      → Above 0 st.timers
      → key_of id st.timers ≡ some (k, timer)
      → (st' : LuaThread D C Co W) × (wake id st ≡ some st')
        × (key_of id st'.timers ≡ some (0, timer))
        × ((other : ℕ) → other ≢ id → key_of other st'.timers ≡ key_of other st.timers)
  wake_lem id k timer st a h = (
    record st { timers = insert 0 timer (erase k st.timers) },
    wake-timer id k timer st h,
    rw (insert-front timer (erase k st.timers) (Above-erase k 0 st.timers a))
        (key_of-first id timer (erase k st.timers) (key_of-id id k timer st.timers h)),
    λ other ne. rw (insert-front timer (erase k st.timers) (Above-erase k 0 st.timers a)) (
        key_of-next other timer (erase k st.timers)
          (rw (key_of-id id k timer st.timers h) (λ e. ne (sym e)))
        ∙ key_of-erase id other 0 k timer st.timers a h ne),
  )

  -- Of two timers that are woken before the thread fires the first of them, the second is lost: it is
  -- neither set nor does a coroutine of it wait, so that it never fires again, and waking it once more
  -- is an error. This is where both were set, each with a time and a number of its own, neither
  -- woken before, and where no coroutine of the second waits.
  pub wake-wake :
      (id other k j : ℕ) (timer lost : LuaTimer C) (st : LuaThread D C Co W)
      → Above 0 st.timers
      → UniqueIds st.timers
      → key_of id st.timers ≡ some (k, timer)
      → key_of other st.timers ≡ some (j, lost)
      → other ≢ id
      → set_wake other st.pending ≡ none
      → (once twice : LuaThread D C Co W) × (wake id st ≡ some once)
        × (wake other once ≡ some twice)
        × (key_of id twice.timers ≡ some (0, timer))
        × (wake other twice ≡ none)
  wake-wake id other k j timer lost st a u h g ne idle =
      let m = erase k st.timers in
      let above = Above-erase k 0 st.timers a in
      let ids = UniqueIds-erase k st.timers u in
      let id_eq = key_of-id id k timer st.timers h in
      let ne' : timer.id ≢ other = rw id_eq (λ e. ne (sym e)) in
      let kept = key_of-erase id other 0 k timer st.timers a h ne ∙ g in
      let once = record st { timers = (0, timer) ∷ m } in
      let twice = record st { timers = (0, timer) ∷ erase j m } in
      let gone = key_of-erase_self other 0 j lost m above ids kept in
      (
        once,
        twice,
        wake-timer id k timer st h
            ∙ ap (λ timers. some (record st { timers = timers })) (insert-front timer m above),
        wake-timer other j lost once (key_of-next other timer m ne' ∙ kept)
            ∙ ap (λ timers. some (record st { timers = timers }))
                (ap (insert 0 lost)
                    (erase-next j timer m (key_of-Above other 0 j lost m above kept))
                  ∙ insert-taken lost timer (erase j m)),
        key_of-first id timer (erase j m) id_eq,
        wake-none other twice (key_of-next other timer (erase j m) ne' ∙ gone) idle,
      )
