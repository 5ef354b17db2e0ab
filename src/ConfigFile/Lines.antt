-- ===== src/ConfigFile/Lines.antt =====
-- src/tabs/luatab.cpp: what is written line by line is read line by line.
use bitcoin_tui.Base.{ℕ, false, List, [], ◌∷◌, ◌++◌, Bytes, ◌==◌, ◌≡◌, refl, ap, arith}
use bitcoin_tui.Config.{pop_return}
use bitcoin_tui.Config.Cookie.{Lacks}
use bitcoin_tui.ConfigFile.Text.{push, lines, unlines}

-- No line holds a line feed.
abbrev pub AreLines : List Bytes → Type 0
AreLines [] = Unit
AreLines (l ∷ ls) = Lacks b'\n' l × AreLines ls

pub AreLines-append : (xs ys : List Bytes) → AreLines xs → AreLines ys → AreLines (xs ++ ys)
AreLines-append [] ys h k = k
AreLines-append (x ∷ xs) ys h k = (h.0, AreLines-append xs ys h.1 k)

pub Lacks-append : (b : ℕ) (s t : Bytes) → Lacks b s → Lacks b t → Lacks b (s ++ t)
Lacks-append b [] t h k = k
Lacks-append b (c ∷ s) t h k = (h.0, Lacks-append b s t h.1 k)

lines-line : (l s : Bytes) → Lacks b'\n' l → lines (l ++ b'\n' ∷ s) ≡ l ∷ lines s
unfolding lines
lines-line [] s h = refl
lines-line (c ∷ l) s h = rw (h.0, lines-line l s h.1) refl

pub lines-unlines : (ls : List Bytes) → AreLines ls → lines (unlines ls) ≡ ls
unfolding unlines
lines-unlines [] h = unfold lines in refl
lines-unlines (l ∷ ls) h = rw (lines-line l (unlines ls) h.0, lines-unlines ls h.1) refl

push-AreLines :
    (c : ℕ) (ls : List Bytes) → (c == b'\n') ≡ false → AreLines ls → AreLines (push c ls)
unfolding push
push-AreLines c [] h k = ((h, tt), tt)
push-AreLines c (l ∷ ls) h k = ((h, k.0), k.1)

-- What std::getline reads holds no line feed.
pub lines-AreLines : (s : Bytes) → AreLines (lines s)
unfolding lines
lines-AreLines [] = tt
lines-AreLines (c ∷ s) = ground (arith, lines-AreLines s, push-AreLines c (lines s))

pub pop_return-Lacks : (b : ℕ) (s : Bytes) → Lacks b s → Lacks b (pop_return s)
unfolding pop_return
pop_return-Lacks b [] h = tt
pop_return-Lacks b (c ∷ []) h = ground arith
pop_return-Lacks b (c ∷ d ∷ s) h = (h.0, pop_return-Lacks b (d ∷ s) h.1)

-- A text that ends with another byte than a carriage return is kept.
pub pop_return-keeps :
    (s : Bytes) (c : ℕ) → (c == 0x0d) ≡ false → pop_return (s ++ c ∷ []) ≡ s ++ c ∷ []
unfolding pop_return
pop_return-keeps [] c h = rw h refl
pop_return-keeps (a ∷ []) c h = ap (λ t. a ∷ t) (pop_return-keeps [] c h)
pop_return-keeps (a ∷ b ∷ s) c h = ap (λ t. a ∷ t) (pop_return-keeps (b ∷ s) c h)

pub pop_return-kept : (s : Bytes) → Lacks 0x0d s → pop_return s ≡ s
unfolding pop_return
pop_return-kept [] h = refl
pop_return-kept (c ∷ []) h = rw h.0 refl
pop_return-kept (c ∷ d ∷ s) h = ap (λ t. c ∷ t) (pop_return-kept (d ∷ s) h.1)
