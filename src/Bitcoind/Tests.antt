-- ===== src/Bitcoind/Tests.antt =====
-- src/bitcoind.cpp: a path of two directories, and an output in three buffers.
use bitcoin_tui.Base.{Bool, true, [], ◌∷◌, ◌++◌, Bytes, codes, same_bytes, some, pos, ◌≡◌, refl}
use bitcoin_tui.Bitcoind.{Os, args_of, status_of, find_bitcoind, launch_bitcoind}
use bitcoin_tui.Bitcoind.Output.{rest_of, launch_bitcoind-lines}
use bitcoin_tui.Bitcoind.Finding.{joined, first_executable, find_bitcoind-joined}

abbrev in_bin : Bytes → Bool
in_bin file = same_bytes file (codes "/bin/bitcoind")

find_bitcoind-joined_example :
    find_bitcoind in_bin (some (joined (codes "/usr" ∷ codes "/bin" ∷ [])))
    ≡ first_executable in_bin (codes "/usr" ∷ codes "/bin" ∷ [])
find_bitcoind-joined_example =
    find_bitcoind-joined in_bin (codes "/usr" ∷ codes "/bin" ∷ [])
      ((refl, (refl, (refl, (refl, tt)))), ((refl, (refl, (refl, (refl, tt)))), refl))

abbrev os : Os
os = record {
  pipe_made = true;
  forked = true;
  buffers = codes "a" ∷ (b'b' ∷ b'\n' ∷ b'c' ∷ []) ∷ codes "d" ∷ [];
  exit_status = some (pos 0);
}

launch_bitcoind-lines_example : launch_bitcoind (codes "bitcoind") [] (codes "signet") os ≡ (
  status_of os.exit_status,
  some (args_of (codes "bitcoind") [] (codes "signet")),
  (codes "ab" ∷ []) ++ rest_of (codes "cd"),
)
launch_bitcoind-lines_example =
    launch_bitcoind-lines (codes "bitcoind") [] (codes "signet") (codes "cd") (codes "ab" ∷ []) os
      refl refl refl ((refl, (refl, tt)), tt) (refl, (refl, tt))
