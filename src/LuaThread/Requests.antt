-- ===== src/LuaThread/Requests.antt =====
-- src/tabs/luatab.cpp: the allowlist, and what a coroutine asks for when it yields.
use bitcoin_tui.Base.{
  zero, suc, Bool, true, false, List, [], ◌∷◌, ◌++◌, Bytes, codes, same_bytes, if◌then◌else◌,
  Option, none, some,
}
use bitcoin_tui.Json.Value.{Items, bool, int, float, string, no_items, item}
use bitcoin_tui.LuaThread.State.{
  LuaValue, LuaValues, boolean, integer, number, text, table, no_values, more,
}

abbrev pub contains : Bytes → List Bytes → Bool
contains method [] = false
contains method (m ∷ allowlist) = if same_bytes method m then true else contains method allowlist

abbrev pub default_rpc_allowlist : List Bytes
default_rpc_allowlist =
    codes "decoderawtransaction"
    ∷ codes "decodescript"
    ∷ codes "estimatesmartfee"
    ∷ codes "getbestblockhash"
    ∷ codes "getblock"
    ∷ codes "getblockchaininfo"
    ∷ codes "getblockcount"
    ∷ codes "getblockhash"
    ∷ codes "getblockheader"
    ∷ codes "getblockstats"
    ∷ codes "getchaintips"
    ∷ codes "getconnectioncount"
    ∷ codes "getdeploymentinfo"
    ∷ codes "getindexinfo"
    ∷ codes "getmempoolancestors"
    ∷ codes "getmempoolcluster"
    ∷ codes "getmempooldescendants"
    ∷ codes "getmempoolentry"
    ∷ codes "getmempoolfeeratediagram"
    ∷ codes "getmempoolinfo"
    ∷ codes "getmininginfo"
    ∷ codes "getnettotals"
    ∷ codes "getnetworkhashps"
    ∷ codes "getnetworkinfo"
    ∷ codes "getnodeaddresses"
    ∷ codes "getpeerinfo"
    ∷ codes "getrawmempool"
    ∷ codes "getrawtransaction"
    ∷ codes "gettxout"
    ∷ codes "gettxoutsetinfo"
    ∷ codes "logging"
    ∷ codes "uptime"
    ∷ []

-- A std::set, of which only `contains` is asked.
abbrev pub make_allowlist : List Bytes → List Bytes
make_allowlist extra = default_rpc_allowlist ++ extra

-- The std::string of what lua_tostring points to ends before its first NUL.
abbrev pub c_string : Bytes → Bytes
c_string [] = []
c_string (zero ∷ s) = []
c_string (suc c ∷ s) = suc c ∷ c_string s

-- The parameters of a request: what is no boolean, number or string is left out.
unfoldable pub extract_rpc_params : {D : Type 0} → LuaValues D → Items D
extract_rpc_params no_values = no_items
extract_rpc_params (more (boolean b) vs) = item (bool b) (extract_rpc_params vs)
extract_rpc_params (more (integer i) vs) = item (int i) (extract_rpc_params vs)
extract_rpc_params (more (number d) vs) = item (float d) (extract_rpc_params vs)
extract_rpc_params (more (text s) vs) = item (string (c_string s)) (extract_rpc_params vs)
extract_rpc_params (more _ vs) = extract_rpc_params vs

-- What a yield asks for: the wallet, if it names one, the method and the parameters.
pub data Yield (D : Type 0) : Type 0 where
  request : Option (LuaValue D) → LuaValue D → LuaValue D → Yield D
  unknown : Yield D

wallet_yield : {D : Type 0} → LuaValue D → LuaValue D → LuaValues D → Yield D
wallet_yield wallet method no_values = unknown
wallet_yield wallet method (more params vs) = request (some wallet) method params

unfoldable pub read_yield : {D : Type 0} → LuaValues D → Yield D
unfolding wallet_yield
read_yield (more (text tag) (more a (more b vs))) =
    if same_bytes (c_string tag) (codes "rpc")
    then request none a b
    else if same_bytes (c_string tag) (codes "rpc_wallet")
    then wallet_yield a b vs
    else unknown
read_yield _ = unknown

-- A value that is no table is left out: it has no elements.
unfoldable pub elements_of : {D : Type 0} → LuaValue D → LuaValues D
elements_of (table vs) = vs
elements_of _ = no_values
