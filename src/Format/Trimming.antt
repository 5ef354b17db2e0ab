-- ===== src/Format/Trimming.antt =====
-- src/format.hpp: `trimmed` takes off the blanks at the two ends, and nothing else.
use bitcoin_tui.Base.{true, false, [], ◌∷◌, ◌++◌, Bytes, ◌≡◌, refl, ◌∙◌, ap}
use bitcoin_tui.Format.{is_blank, trim_front, trim_back, drop_last, trimmed}

-- Spaces and tabs alone.
abbrev pub AreBlank : Bytes → Type 0
AreBlank [] = Unit
AreBlank (c ∷ s) = (is_blank c ≡ true) × AreBlank s

-- The text does not begin, or does not end, with a blank.
abbrev pub BareFront : Bytes → Type 0
BareFront [] = Unit
BareFront (c ∷ s) = is_blank c ≡ false

abbrev pub BareBack : Bytes → Type 0
BareBack [] = Unit
BareBack (c ∷ []) = is_blank c ≡ false
BareBack (c ∷ d ∷ s) = BareBack (d ∷ s)

trim_front-AreBlank : (b s : Bytes) → AreBlank b → trim_front (b ++ s) ≡ trim_front s
unfolding trim_front
trim_front-AreBlank [] s h = refl
trim_front-AreBlank (c ∷ b) s h = rw h.0 (trim_front-AreBlank b s h.1)

trim_front-nil : (b : Bytes) → AreBlank b → trim_front b ≡ []
unfolding trim_front
trim_front-nil [] h = refl
trim_front-nil (c ∷ b) h = rw h.0 (trim_front-nil b h.1)

trim_front-BareFront : (s : Bytes) → BareFront s → trim_front s ≡ s
unfolding trim_front
trim_front-BareFront [] h = refl
trim_front-BareFront (c ∷ s) h = rw h refl

trim_back-AreBlank : (b : Bytes) → AreBlank b → trim_back b ≡ []
unfolding trim_back drop_last
trim_back-AreBlank [] h = refl
trim_back-AreBlank (c ∷ b) h = rw (trim_back-AreBlank b h.1, h.0) refl

trim_back-append : (s b : Bytes) → AreBlank b → BareBack s → trim_back (s ++ b) ≡ s
unfolding trim_back drop_last
trim_back-append [] b h k = trim_back-AreBlank b h
trim_back-append (c ∷ []) b h k = rw (trim_back-AreBlank b h, k) refl
trim_back-append (c ∷ d ∷ s) b h k = rw (trim_back-append (d ∷ s) b h k) refl

-- Of blanks, a text that neither begins nor ends with a blank, and blanks again, `trimmed` leaves the
-- text, whatever stands inside it; the text may be empty.
pub trimmed_lem :
    (front s back : Bytes)
    → AreBlank front
    → AreBlank back
    → BareFront s
    → BareBack s
    → trimmed (front ++ (s ++ back)) ≡ s
unfolding trimmed
trimmed_lem front s back hf hb bf bb =
    ap trim_back (trim_front-AreBlank front (s ++ back) hf) ∙ kept s bf bb
  where
    kept : (s : Bytes) → BareFront s → BareBack s → trim_back (trim_front (s ++ back)) ≡ s
    kept [] bf bb = ap trim_back (trim_front-nil back hb) ∙ trim_back-AreBlank [] tt
    kept (c ∷ s) bf bb =
        ap trim_back (trim_front-BareFront (c ∷ s ++ back) bf) ∙ trim_back-append (c ∷ s) back hb bb
