-- ===== src/Bitcoind.antt =====
-- src/bitcoind.cpp: the search for bitcoind and its start, without the branches for Windows.
pub mod Output
pub mod Finding
mod Tests
use bitcoin_tui.Base.{
  ℕ, zero, suc, ◌==◌, Bool, true, false, not, List, [], ◌∷◌, ◌++◌, Bytes, codes, same_bytes, length,
  if◌then◌else◌, Option, none, some, ℤ, pos, negsuc,
}
use bitcoin_tui.State.{empty}

-- The text up to the next `:`, and what follows it.
pub cut : Bytes → Bytes × Bytes
cut [] = ([], [])
cut (c ∷ s) = let (dir, more) = cut s in if c == b':' then ([], s) else (c ∷ dir, more)

-- The loop of find_bitcoind over the rest of the path; the rounds that are left. `is_executable` is
-- whether stat() finds the file with S_IXUSR.
unfoldable pub search_path : (Bytes → Bool) → ℕ → Bytes → Bytes
unfolding cut
search_path is_executable zero path = []
search_path is_executable (suc rounds) path =
    let (dir, more) = cut path in
    let later = search_path is_executable rounds more in
    if empty path
    then []
    else if is_executable (dir ++ codes "/bitcoind")
    then dir ++ codes "/bitcoind"
    else later

-- `path_env` is the variable PATH, if it is set.
unfoldable pub find_bitcoind : (Bytes → Bool) → Option Bytes → Bytes
unfolding search_path
find_bitcoind is_executable none = []
find_bitcoind is_executable (some path) = search_path is_executable (length path) path

network_args : Bytes → List Bytes
network_args network =
    if same_bytes network (codes "testnet3")
    then codes "-testnet" ∷ []
    else if same_bytes network (codes "testnet4")
    then codes "-testnet4" ∷ []
    else if same_bytes network (codes "signet")
    then codes "-signet" ∷ []
    else if same_bytes network (codes "regtest")
    then codes "-regtest" ∷ []
    else []

-- The arguments that the child is started with.
unfoldable pub args_of : Bytes → Bytes → Bytes → List Bytes
unfolding network_args
args_of cmd datadir network =
    (cmd ∷ codes "-daemonwait" ∷ [])
    ++ ((if empty datadir then [] else (codes "-datadir=" ++ datadir) ∷ []) ++ network_args network)

-- The loop over the bytes of a buffer: the line so far, and the lines that on_output was called
-- with.
unfoldable pub read_bytes : Bytes → Bytes × List Bytes → Bytes × List Bytes
read_bytes [] (line, lines) = (line, lines)
read_bytes (c ∷ buf) (line, lines) =
    read_bytes buf (if c == b'\n' then ([], lines ++ (line ∷ [])) else (line ++ (c ∷ []), lines))

-- The loop over what read() fills the buffer with.
unfoldable pub read_buffers : List Bytes → Bytes × List Bytes → Bytes × List Bytes
unfolding read_bytes
read_buffers [] at = at
read_buffers (buf ∷ bufs) at = read_buffers bufs (read_bytes buf at)

pub last_line : Bytes × List Bytes → List Bytes
last_line (line, lines) = if empty line then lines else lines ++ (line ∷ [])

-- The lines that on_output is called with.
unfoldable pub output_lines : List Bytes → List Bytes
unfolding read_buffers last_line
output_lines bufs = last_line (read_buffers bufs ([], []))

-- What the operating system answers: whether pipe() and fork() succeed, what read() returns up to
-- the end of the file, and the status that the child exits with, if it exits.
pub record Os : Type 0 where
  pub pipe_made : Bool
  pub forked : Bool
  pub buffers : List Bytes
  pub exit_status : Option ℤ

pub status_of : Option ℤ → ℤ
status_of none = negsuc 0
status_of (some status) = status

-- What is returned, the arguments that a child was started with, and the lines of its output.
unfoldable pub launch_bitcoind : Bytes → Bytes → Bytes → Os → ℤ × Option (List Bytes) × List Bytes
unfolding args_of output_lines status_of
launch_bitcoind cmd datadir network os =
    if not os.pipe_made
    then (negsuc 0, none, [])
    else if not os.forked
    then (negsuc 0, none, [])
    else (status_of os.exit_status, some (args_of cmd datadir network), output_lines os.buffers)
