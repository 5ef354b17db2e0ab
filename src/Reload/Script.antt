-- ===== src/Reload/Script.antt =====
-- src/main.cpp: the tab of a spec has the path that a reload looks for.
use bitcoin_tui.Base.{
  ℕ, Bool, true, false, Bool-cases, inl, inr, List, [], ◌∷◌, Bytes, codes, same_bytes,
  compare_bytes, ◌==◌, Option, none, some, ok, ◌≡◌, refl, ◌∙◌, ap, arith,
}
use bitcoin_tui.State.{empty}
use bitcoin_tui.Config.{split_at}
use bitcoin_tui.ConfigFile.Text.{push}
use bitcoin_tui.Json.Value.{Floats, Json, string, object, no_fields, insert, find}
use bitcoin_tui.Json.Access.{assign, contains, index, get_string, or_default, is_object}
use bitcoin_tui.Json.Access.Laws.{assign_reads}
use bitcoin_tui.Reload.{spec_path}
use bitcoin_tui.Reload.Specs.{
  tokens, starts_with_brace, add_option, add_options, options_of, script_path_of, make_lua_tab,
  parse_tab_spec, lua_tabs,
}

abbrev rest_of : List Bytes → List Bytes
rest_of [] = []
rest_of (t ∷ ts) = ts

tokens-spec_path :
    (c : ℕ) (s : Bytes) → tokens (c ∷ s) ≡ spec_path (c ∷ s) ∷ rest_of (tokens (c ∷ s))
unfolding tokens spec_path push
tokens-spec_path c [] = ground arith
tokens-spec_path c (d ∷ s) = elim (Bool-cases (c == b',')) [
  | inl e ↦ rw e refl
  | inr e ↦ rw e (rw (tokens-spec_path d s) refl)
]

-- No option that is named after the path sets the script again.
abbrev SetsOther : Option (Bytes × Bytes) → Type 0
SetsOther none = Unit
SetsOther (some (key, val)) = same_bytes (codes "script") key ≡ false

abbrev pub SetsNoScript : List Bytes → Type 0
SetsNoScript [] = Unit
SetsNoScript (t ∷ ts) = SetsOther (split_at b'=' t) × SetsNoScript ts

-- A spec with commas whose path is not empty, and whose options do not name another.
abbrev pub IsPlainSpec : Bytes → Type 0
IsPlainSpec spec =
    (starts_with_brace spec ≡ false)
    × (empty (spec_path spec) ≡ false)
    × SetsNoScript (rest_of (tokens spec))

module _ {D : Type 0} where
  abbrev HasScript : Bytes → Json D → Type 0
  HasScript path options =
      (contains (codes "script") options ≡ true)
      × (index (codes "script") options ≡ string path)
      × (is_object options ≡ true)

  assign-object :
      (key : Bytes) (v options : Json D)
      → is_object options ≡ true
      → (next : Json D) × (assign key v options ≡ ok next) × (is_object next ≡ true)
  unfolding assign
  assign-object key v (object fs) h = (object (insert key v fs), refl, refl)
  assign-object key v _ h = cc

  add_option-HasScript :
      (o : Option (Bytes × Bytes)) (path : Bytes) (options : Json D)
      → SetsOther o
      → HasScript path options
      → (next : Json D) × (add_option o options ≡ ok next) × HasScript path next
  unfolding add_option
  add_option-HasScript none path options h k = (options, refl, k)
  add_option-HasScript (some (key, val)) path options h (has, reads, is) =
      let (next, made, is_next) = assign-object key (string val) options is in
      let (has_next, reads_next, _) =
        assign_reads get_string [] key (codes "script") (string val) options made in
      (next, made, (has_next ∙ rw h has, reads_next ∙ rw h reads, is_next))

  add_options-HasScript :
      (ts : List Bytes) (path : Bytes) (options : Json D)
      → SetsNoScript ts
      → HasScript path options
      → (all : Json D) × (add_options ts options ≡ ok all) × HasScript path all
  unfolding add_options
  add_options-HasScript [] path options h k = (options, refl, k)
  add_options-HasScript (t ∷ ts) path options (h, hs) k =
      let (next, made, has) = add_option-HasScript (split_at b'=' t) path options h k in
      let (all, more, has_all) = add_options-HasScript ts path next hs has in
      (all, rw made more, has_all)

  options_of-HasScript :
      (c : ℕ) (s : Bytes)
      → SetsNoScript (rest_of (tokens (c ∷ s)))
      → (all : Json D) × (options_of (tokens (c ∷ s)) ≡ ok all) × HasScript (spec_path (c ∷ s)) all
  unfolding options_of
  options_of-HasScript c s h =
      let path = spec_path (c ∷ s) in
      let first : HasScript path (object (insert (codes "script") (string path) no_fields)) =
        unfold contains index insert find compare_bytes in (refl, refl, refl) in
      let (all, e, has) = add_options-HasScript (rest_of (tokens (c ∷ s))) path _ h first in
      (all, ap options_of (tokens-spec_path c s) ∙ unfold assign in e, has)

  script_path_of-HasScript :
      (path : Bytes) (options : Json D) → HasScript path options → script_path_of options ≡ path
  unfolding script_path_of get_string or_default
  script_path_of-HasScript path options (has, reads, is) = rw (has, reads) refl

  make_lua_tab-HasScript :
      {S : Type 0} (start : Json D → Option S) (path : Bytes) (options : Json D) (s : S)
      → HasScript path options
      → empty path ≡ false
      → start options ≡ some s
      → make_lua_tab start (ok options) ≡ some (options, s)
  unfolding make_lua_tab get_string
  make_lua_tab-HasScript start path options s (has, reads, is) h started =
      rw (has, reads, h, started) refl

-- A spec with commas is a tab of that path, provided that its constructor throws nothing.
pub lua_tabs-IsPlainSpec :
    {S : Type 0} (floats : Floats) (start : Json floats.Double → Option S) (has_ended : S → Bool)
    (spec : Bytes)
    → ((options : Json floats.Double) → (s : S) × (start options ≡ some s))
    → IsPlainSpec spec
    → (tab : Json floats.Double × S) × ((lua_tabs floats start has_ended).make spec ≡ some tab)
      × ((lua_tabs floats start has_ended).script_path tab ≡ spec_path spec)
unfolding lua_tabs parse_tab_spec
lua_tabs-IsPlainSpec floats start has_ended [] starts (brace, some_path, others) =
    unfold spec_path in cc
lua_tabs-IsPlainSpec floats start has_ended (c ∷ s) starts (brace, some_path, others) =
    let (options, made, has) = options_of-HasScript c s others in
    let (state, started) = starts options in
    (
      (options, state),
      rw (brace, made)
          (make_lua_tab-HasScript start (spec_path (c ∷ s)) options state has some_path started),
      script_path_of-HasScript (spec_path (c ∷ s)) options has,
    )
