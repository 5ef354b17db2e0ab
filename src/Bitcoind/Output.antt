-- ===== src/Bitcoind/Output.antt =====
-- src/bitcoind.cpp: the lines of the output, however it is cut into buffers.
use bitcoin_tui.Base.{
  ◌==◌, true, false, List, [], ◌∷◌, ◌++◌, append_assoc, append-nil, Bytes, if◌then◌else◌, some, ◌≡◌,
  refl, ◌∙◌, ap, sym,
}
use bitcoin_tui.Bitcoind.{
  read_bytes, read_buffers, last_line, output_lines, Os, status_of, args_of, launch_bitcoind,
}

-- The buffers put together, and lines, each with its end.
abbrev pub concat : List Bytes → Bytes
concat [] = []
concat (buf ∷ bufs) = buf ++ concat bufs

abbrev pub with_ends : List Bytes → Bytes
with_ends [] = []
with_ends (line ∷ lines) = line ++ (b'\n' ∷ with_ends lines)

-- There is no line feed in it.
abbrev pub IsLine : Bytes → Type 0
IsLine [] = Unit
IsLine (c ∷ s) = ((c == b'\n') ≡ false) × IsLine s

abbrev pub AllLines : List Bytes → Type 0
AllLines [] = Unit
AllLines (line ∷ lines) = IsLine line × AllLines lines

read_bytes-append :
    (s t : Bytes) (at : Bytes × List Bytes)
    → read_bytes (s ++ t) at ≡ read_bytes t (read_bytes s at)
unfolding read_bytes
read_bytes-append [] t (line, lines) = refl
read_bytes-append (c ∷ s) t (line, lines) =
    read_bytes-append s t
      (if c == b'\n' then ([], lines ++ (line ∷ [])) else (line ++ (c ∷ []), lines))

read_buffers-concat :
    (bufs : List Bytes) (at : Bytes × List Bytes)
    → read_buffers bufs at ≡ read_bytes (concat bufs) at
unfolding read_buffers read_bytes
read_buffers-concat [] at = refl
read_buffers-concat (buf ∷ bufs) at =
    read_buffers-concat bufs (read_bytes buf at) ∙ sym (read_bytes-append buf (concat bufs) at)

read_bytes-line :
    (s line : Bytes) (lines : List Bytes)
    → IsLine s
    → read_bytes s (line, lines) ≡ (line ++ s, lines)
unfolding read_bytes
read_bytes-line [] line lines h = ap (λ l. (l, lines)) (sym (append-nil line))
read_bytes-line (c ∷ s) line lines (h, hs) = rw h (
    read_bytes-line s (line ++ (c ∷ [])) lines hs
    ∙ ap (λ l. (l, lines)) (append_assoc line (c ∷ []) s))

read_bytes-end :
    (s t : Bytes) (lines : List Bytes)
    → read_bytes (b'\n' ∷ t) (s, lines) ≡ read_bytes t ([], lines ++ (s ∷ []))
unfolding read_bytes
read_bytes-end s t lines = refl

read_bytes-with_ends :
    (all : List Bytes) (rest : Bytes) (lines : List Bytes)
    → AllLines all
    → IsLine rest
    → read_bytes (with_ends all ++ rest) ([], lines) ≡ (rest, lines ++ all)
read_bytes-with_ends [] rest lines h r =
    read_bytes-line rest [] lines r ∙ ap (λ l. (rest, l)) (sym (append-nil lines))
read_bytes-with_ends (s ∷ all) rest lines (h, hs) r =
    ap (λ t. read_bytes t ([], lines)) (append_assoc s (b'\n' ∷ with_ends all) rest)
    ∙ read_bytes-append s (b'\n' ∷ (with_ends all ++ rest)) ([], lines)
    ∙ ap (read_bytes (b'\n' ∷ (with_ends all ++ rest))) (read_bytes-line s [] lines h)
    ∙ read_bytes-end s (with_ends all ++ rest) lines
    ∙ read_bytes-with_ends all rest (lines ++ (s ∷ [])) hs r
    ∙ ap (λ l. (rest, l)) (append_assoc lines (s ∷ []) all)

-- The rest of the output behind the last line feed, if there is any.
abbrev pub rest_of : Bytes → List Bytes
rest_of [] = []
rest_of (c ∷ s) = (c ∷ s) ∷ []

last_line-rest :
    (rest : Bytes) (lines : List Bytes) → last_line (rest, lines) ≡ lines ++ rest_of rest
unfolding last_line
last_line-rest [] lines = sym (append-nil lines)
last_line-rest (c ∷ s) lines = refl

-- When bitcoind could be started, its output is reported line by line, each without its line feed
-- and the rest behind the last one if there is any, however read() cuts the output into buffers; and what
-- is returned is the status that it exits with, or -1.
pub launch_bitcoind-lines :
    (cmd datadir network rest : Bytes) (all : List Bytes) (os : Os)
    → os.pipe_made ≡ true
    → os.forked ≡ true
    → concat os.buffers ≡ with_ends all ++ rest
    → AllLines all
    → IsLine rest
    → launch_bitcoind cmd datadir network os
      ≡ (status_of os.exit_status, some (args_of cmd datadir network), all ++ rest_of rest)
launch_bitcoind-lines cmd datadir network rest all os p f e h r =
    let read : read_buffers os.buffers ([], []) ≡ (rest, all) =
      read_buffers-concat os.buffers ([], [])
      ∙ ap (λ s. read_bytes s ([], [])) e
      ∙ read_bytes-with_ends all rest [] h r in
    unfold launch_bitcoind output_lines in
    rw (p, f)
      (ap (λ l. (status_of os.exit_status, some (args_of cmd datadir network), l))
        (ap last_line read ∙ last_line-rest rest all))
