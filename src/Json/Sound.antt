-- ===== src/Json/Sound.antt =====
-- src/json.hpp: `parse` ends on every text, and returns a value that a `json` can hold.
use bitcoin_tui.Base.{
  ℕ, zero, suc, ◌+◌, ◌*◌, ◌<◌, [], ◌∷◌, Bytes, codes, ◌==◌, ◌||◌, length, Ensures, returns, throws,
  Ensures-if_apply, Ensures-bind, Ensures-map, arith, is_digit,
}
use bitcoin_tui.Json.Value.{
  Floats, Json, Items, Fields, no_items, no_fields, push_back, insert, array, object,
}
use bitcoin_tui.Json.Scan.{skip_ws, front, peek}
use bitcoin_tui.Json.Parser.{
  parse_scalar, parse_value, parse_members, parse_elements, finish, parse,
}
use bitcoin_tui.Json.Valid.{IsValid, push_back-AreValid, insert-IsValid}
use bitcoin_tui.Json.Rendered.{after_element, after_member}
use bitcoin_tui.Json.Bounds.{
  length-skip_ws, consume-Ensures, expect-Ensures, parse_string_val-Ensures, keyword-Ensures,
  parse_number-Ensures,
}

module _ (fl : Floats) where
  open fl use {Double}

  -- What std::map and int64_t guarantee of a value; nothing is asked of its doubles.
  abbrev pub IsStored : Json Double → Type 0
  IsStored = IsValid (λ (d : Double). Unit)

  abbrev Reads : Bytes → Json Double × Bytes → Type 0
  Reads s (v, rest) = IsStored v × (length rest < length s)

  parse_scalar-Ensures : (s : Bytes) → Ensures (Reads s) (parse_scalar fl (front s) s)
  unfolding parse_scalar IsValid
  parse_scalar-Ensures [] = throws
  parse_scalar-Ensures (c ∷ s) =
      Ensures-if_apply (c == b'"') _ _
        (λ _. Ensures-bind (parse_string_val-Ensures (c ∷ s)) λ (t, rest) l. returns (tt, l))
        λ _.
          Ensures-if_apply (c == b't') _ _
            (λ _.
              Ensures-bind (keyword-Ensures (codes "true") _ (c ∷ s) (cc))
                λ (t, rest) l. returns (tt, l))
            λ _.
              Ensures-if_apply (c == b'f') _ _
                (λ _.
                  Ensures-bind (keyword-Ensures (codes "false") _ (c ∷ s) (cc))
                    λ (t, rest) l. returns (tt, l))
                λ _.
                  Ensures-if_apply (c == b'n') _ _
                    (λ _.
                      Ensures-bind (keyword-Ensures (codes "null") _ (c ∷ s) (cc))
                        λ (t, rest) l. returns (tt, l))
                    λ _.
                      Ensures-if_apply (c == b'-' || is_digit c) _ _
                        (λ h.
                          Ensures-map (parse_number-Ensures fl c s h)
                            λ (v, rest) l. (l.0, omega arith))
                        (λ _. throws)

  -- What follows an element: the array ends, or the loop goes on behind the comma.
  after_element-Ensures :
      (f : ℕ) (aval : Items Double) (s rest : Bytes)
      → IsStored (array aval)
      → length rest < length s
      → ((t : Bytes) → length t < length rest → Ensures (Reads t) (parse_elements fl f aval t))
      → Ensures (Reads s) (after_element fl f aval rest)
  unfolding peek
  after_element-Ensures f aval s rest ha h go =
      let t = skip_ws rest in
      let l = length-skip_ws rest in
      Ensures-if_apply (front t == b']') _ _
        (λ _. Ensures-bind (consume-Ensures t) λ (c, u) m. returns (ha, omega arith))
        λ _.
          Ensures-if_apply (front t == b',') _ _
            (λ _.
              Ensures-bind (consume-Ensures t)
                λ (c, u) m. Ensures-map (go u (omega arith)) λ (v, more) r. (r.0, omega arith))
            (λ _. throws)

  after_member-Ensures :
      (f : ℕ) (oval : Fields Double) (s rest : Bytes)
      → IsStored (object oval)
      → length rest < length s
      → ((t : Bytes) → length t < length rest → Ensures (Reads t) (parse_members fl f oval t))
      → Ensures (Reads s) (after_member fl f oval rest)
  unfolding peek
  after_member-Ensures f oval s rest ho h go =
      let t = skip_ws rest in
      let l = length-skip_ws rest in
      Ensures-if_apply (front t == b'}') _ _
        (λ _. Ensures-bind (consume-Ensures t) λ (c, u) m. returns (ho, omega arith))
        λ _.
          Ensures-if_apply (front t == b',') _ _
            (λ _.
              Ensures-bind (consume-Ensures t)
                λ (c, u) m. Ensures-map (go u (omega arith)) λ (v, more) r. (r.0, omega arith))
            (λ _. throws)

  mutual
    unfolding parse_value peek IsValid

    value-Ensures : (f : ℕ) (s : Bytes) → 2 * length s < f → Ensures (Reads s) (parse_value fl f s)
    value-Ensures zero s h = absurd (omega arith)
    value-Ensures (suc f) s h =
        let t = skip_ws s in
        let l = length-skip_ws s in
        Ensures-if_apply (front t == b'{') _ _
          (λ _. Ensures-bind (consume-Ensures t) λ (c, u) m.
            let w = skip_ws u in
            let k = length-skip_ws u in
            Ensures-if_apply (front w == b'}') _ _
              (λ _. Ensures-bind (consume-Ensures w) λ (d, x) n. returns ((tt, tt), omega arith))
              (λ _.
                Ensures-map (members-Ensures f no_fields w (tt, tt) (omega arith))
                  λ (v, rest) r. (r.0, omega arith)))
          λ _.
            Ensures-if_apply (front t == b'[') _ _
              (λ _. Ensures-bind (consume-Ensures t) λ (c, u) m.
                let w = skip_ws u in
                let k = length-skip_ws u in
                Ensures-if_apply (front w == b']') _ _
                  (λ _. Ensures-bind (consume-Ensures w) λ (d, x) n. returns (tt, omega arith))
                  (λ _.
                    Ensures-map (elements-Ensures f no_items w tt (omega arith))
                      λ (v, rest) r. (r.0, omega arith)))
              λ _. Ensures-map (parse_scalar-Ensures t) λ (v, rest) r. (r.0, omega arith)

    members-Ensures :
        (f : ℕ) (oval : Fields Double) (s : Bytes)
        → IsStored (object oval)
        → 2 * length s + 1 < f
        → Ensures (Reads s) (parse_members fl f oval s)
    members-Ensures zero oval s ho h = absurd (omega arith)
    members-Ensures (suc f) oval s ho h = Ensures-bind (parse_string_val-Ensures s) λ (key, t) l.
        Ensures-bind (expect-Ensures b':' t) λ (_, u) m.
          Ensures-bind (value-Ensures f u (omega arith)) λ (v, rest) r.
            let oval' = insert key v oval in
            after_member-Ensures f oval' s rest (insert-IsValid (λ _. Unit) key v oval ho r.0)
              (omega arith)
              (λ w k.
                members-Ensures f oval' w (insert-IsValid (λ _. Unit) key v oval ho r.0)
                  (omega arith))

    elements-Ensures :
        (f : ℕ) (aval : Items Double) (s : Bytes)
        → IsStored (array aval)
        → 2 * length s + 1 < f
        → Ensures (Reads s) (parse_elements fl f aval s)
    elements-Ensures zero aval s ha h = absurd (omega arith)
    elements-Ensures (suc f) aval s ha h =
        Ensures-bind (value-Ensures f s (omega arith)) λ (v, rest) r.
          let aval' = push_back aval v in
          let ha' = push_back-AreValid (λ _. Unit) aval v ha r.0 in
          after_element-Ensures f aval' s rest ha' (omega arith)
            (λ w k. elements-Ensures f aval' w ha' (omega arith))

  finish-Ensures : (v : Json Double) (s : Bytes) → IsStored v → Ensures IsStored (finish fl v s)
  unfolding finish
  finish-Ensures v [] h = returns h
  finish-Ensures v (c ∷ s) h = throws

  -- Whatever bytes the text holds, `parse` ends: the fuel that it is given is enough. It throws, or
  -- returns a value whose objects hold each key once and in order and whose integers fit int64_t.
  pub parse-Ensures : (s : Bytes) → Ensures IsStored (parse fl s)
  unfolding parse
  parse-Ensures s =
      Ensures-bind (value-Ensures (2 * length s + 1) s (omega arith))
        λ (v, rest) r. finish-Ensures v (skip_ws rest) r.0
