-- ===== src/Config/Tests.antt =====
-- Runs of the configuration of src/main.cpp.
use bitcoin_tui.Base.{true, false, codes, compare_bytes, some, pos, ◌≡◌, refl}
use bitcoin_tui.Config.{network_subdir, cookie_path, count, select_network}

cookie_path_run : cookie_path (codes "signet") (codes "/d") ≡ codes "/d/signet/.cookie"
unfolding cookie_path network_subdir compare_bytes
cookie_path_run = refl

chosen :
    select_network false true false false false (pos 9) (codes "main")
    ≡ some (pos 9, codes "testnet4")
unfolding select_network count
chosen = refl
