-- ===== src/Bitcoind/Finding.antt =====
-- src/bitcoind.cpp: which bitcoind is found.
use bitcoin_tui.Base.{
  ℕ, zero, suc, ◌≤◌, ◌==◌, Bool, false, List, [], ◌∷◌, ◌++◌, Bytes, codes, length, length-append,
  if◌then◌else◌, some, ◌≡◌, refl, ◌∙◌, ap, arith,
}
use bitcoin_tui.State.{empty}
use bitcoin_tui.Bitcoind.{cut, search_path, find_bitcoind}

-- The directories of a path, with `:` between them.
abbrev pub joined : List Bytes → Bytes
joined [] = []
joined (dir ∷ []) = dir
joined (dir ∷ (next ∷ dirs)) = dir ++ (b':' ∷ joined (next ∷ dirs))

-- There is no `:` in it.
abbrev pub IsDir : Bytes → Type 0
IsDir [] = Unit
IsDir (c ∷ s) = ((c == b':') ≡ false) × IsDir s

-- Directories, of which the last has a name; the others may be empty.
abbrev pub AllDirs : List Bytes → Type 0
AllDirs [] = Unit
AllDirs (dir ∷ []) = IsDir dir × (empty dir ≡ false)
AllDirs (dir ∷ (next ∷ dirs)) = IsDir dir × AllDirs (next ∷ dirs)

-- The bitcoind of the first directory that has one.
abbrev pub first_executable : (Bytes → Bool) → List Bytes → Bytes
first_executable is_executable [] = []
first_executable is_executable (dir ∷ dirs) =
    let later = first_executable is_executable dirs in
    if is_executable (dir ++ codes "/bitcoind") then dir ++ codes "/bitcoind" else later

cut-last : (dir : Bytes) → IsDir dir → cut dir ≡ (dir, [])
unfolding cut
cut-last [] h = refl
cut-last (c ∷ s) (h, hs) = rw (h, cut-last s hs) refl

cut-dir : (dir more : Bytes) → IsDir dir → cut (dir ++ (b':' ∷ more)) ≡ (dir, more)
unfolding cut
cut-dir [] more h = refl
cut-dir (c ∷ s) more (h, hs) = rw (h, cut-dir s more hs) refl

empty-dir : (dir more : Bytes) → empty (dir ++ (b':' ∷ more)) ≡ false
empty-dir [] more = refl
empty-dir (c ∷ s) more = refl

search_path-none :
    (is_executable : Bytes → Bool) (rounds : ℕ) → search_path is_executable rounds [] ≡ []
unfolding search_path
search_path-none is_executable zero = refl
search_path-none is_executable (suc rounds) = refl

empty-length : (s : Bytes) → empty s ≡ false → suc zero ≤ length s
empty-length [] h = absurd (cc)
empty-length (c ∷ s) h = omega arith

-- One round, for a path that is not empty and is cut like this.
search_path-round :
    (is_executable : Bytes → Bool) (rounds : ℕ) (path dir more : Bytes)
    → empty path ≡ false
    → cut path ≡ (dir, more)
    → search_path is_executable (suc rounds) path ≡ (
        if is_executable (dir ++ codes "/bitcoind")
        then dir ++ codes "/bitcoind"
        else search_path is_executable rounds more)
unfolding search_path
search_path-round is_executable rounds path dir more e c = rw (c, e) refl

search_path-joined :
    (is_executable : Bytes → Bool) (rounds : ℕ) (dirs : List Bytes)
    → AllDirs dirs
    → length (joined dirs) ≤ rounds
    → search_path is_executable rounds (joined dirs) ≡ first_executable is_executable dirs
search_path-joined is_executable rounds [] h le = search_path-none is_executable rounds
search_path-joined is_executable zero (dir ∷ []) (h, e) le =
    absurd (omega (arith, le, empty-length dir e))
search_path-joined is_executable (suc rounds) (dir ∷ []) (h, e) le =
    search_path-round is_executable rounds dir dir [] e (cut-last dir h)
    ∙ ap
        (λ later.
          if is_executable (dir ++ codes "/bitcoind") then dir ++ codes "/bitcoind" else later)
        (search_path-none is_executable rounds)
search_path-joined is_executable zero (dir ∷ (next ∷ dirs)) h le =
    absurd (omega (arith, le, length-append dir (b':' ∷ joined (next ∷ dirs))))
search_path-joined is_executable (suc rounds) (dir ∷ (next ∷ dirs)) (h, hs) le =
    let more = joined (next ∷ dirs) in
    search_path-round is_executable rounds (dir ++ (b':' ∷ more)) dir more (empty-dir dir more)
      (cut-dir dir more h)
    ∙ ap
        (λ later.
          if is_executable (dir ++ codes "/bitcoind") then dir ++ codes "/bitcoind" else later)
        (search_path-joined is_executable rounds (next ∷ dirs) hs
          (omega (arith, le, length-append dir (b':' ∷ more))))

-- Of the directories of PATH, where only the last must have a name, the bitcoind of the first one that has an executable of that name is
-- found, and nothing when none has; an empty one stands for the root.
pub find_bitcoind-joined :
    (is_executable : Bytes → Bool) (dirs : List Bytes)
    → AllDirs dirs
    → find_bitcoind is_executable (some (joined dirs)) ≡ first_executable is_executable dirs
unfolding find_bitcoind
find_bitcoind-joined is_executable dirs h =
    search_path-joined is_executable (length (joined dirs)) dirs h (omega arith)
