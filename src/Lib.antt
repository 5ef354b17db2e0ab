-- ===== src/Lib.antt =====
-- bitcoin-tui is a terminal user interface for Bitcoin Core, in C++. It talks to a node over
-- JSON-RPC: json.hpp holds the JSON value with its parser and printer, rpc_client.cpp sends a
-- request over a socket and reads the reply, poll.cpp and search.cpp turn replies into the state of
-- state.hpp, and the tabs under src/tabs show that state and handle the keys.
--
-- Base: shared names. Base/Text has std::string as a list of bytes with its order, Base/Integers
--   int64_t and int as integers with their ranges, Base/Decimal std::to_string and std::stoll,
--   Base/Outcomes what a call comes back with: a value, an exception, or no fuel.
-- Json: src/json.hpp. Json/Value has one constructor per Kind; the std::map of an object is a list
--   in the order of its keys (oval_[key] is insert, find is find). Json/Scan and Json/Parser are
--   the struct Parser function by function: skip_ws, peek, consume, expect, parse_string_val,
--   parse_number, parse_value with its two loops as parse_members and parse_elements. The position
--   is the rest of the text. Recursion is on fuel, two rounds for each byte and one more, which
--   Json/Sound proves to be enough for every text. Json/Dump is quote and dump_impl, Json/Access
--   the constructors, queries and accessors. Json/Valid says which values a json object can hold.
--   Json/Strings, Unicode, Literals, Numbers, Blank, Gather, Rendered, Layout, Rounds and Scalars
--   lead up to Json/RoundTrip; Json/Bounds to Json/Sound; Json/Access/Laws has the laws of
--   assignment. Doubles are the parameter Floats, since reading and printing them is the standard
--   library's; a value's doubles are assumed to print as a literal with a fraction or an exponent
--   that std::stod reads back. A double without either prints as an integer and is read back as
--   one.
-- Rpc: src/rpc_client.cpp. Rpc/Base64 and Rpc/Uri are base64_encode and uri_encode. Rpc/Http is
--   http_post; what the operating system answers is the parameter Network, and the calls that
--   acquire or release a handle are returned as a list, to which each part of the function adds its
--   own. The loop of send() runs over the list of what send() returns. Rpc/Client is RpcClient::call and call_wallet, with request_id_ as an
--   integer without overflow. Rpc/Http/Response, Rpc/Http/Exchange, Rpc/Client/Reply and
--   Rpc/Client/Calls have the theorems.
-- State: src/state.hpp, TxSearchState and the helpers on it; State/Queries is about them.
-- Mempool: src/tabs/mempool.cpp, the members of MempoolTab and its handlers by name. The search
--   thread is a state of its own, whose two steps are that the flag search_in_flight_ is cleared
--   and that the result is stored; Mempool/Steps interleaves them with keys, searches and the poll
--   thread. The history is kept with its back first. The search is an argument, which Search fills.
--   Mempool/Thread has the members, the thread and `trigger_search`; Mempool/Selection,
--   Mempool/Trigger and Mempool/Keys are about the selections, Mempool/History about Escape.
-- LuaTable: src/luatable.hpp and src/luatable.cpp. The std::set of rows is a list in the order of
--   the keys; the order of CellData is the parameter DataOrder. The field `data` of CellValue is
--   cell_data here, and the epoch, an int, is a natural number without overflow. LuaTable/Rows, Columns, Refresh and Cycle have the theorems.
-- Format: src/format.hpp, the helpers on integers and text. fmt_int and fmt_height share the loop
--   that puts in the marks, which runs on as much fuel as the text has bytes.
-- Render: src/render.cpp, centered_window and ellipsize_middle, which Render/Window and
--   Render/Ellipsis are about.
-- ConfigFile: src/tabs/luatab.cpp, read_config_table and write_config_table. The file is its text,
--   which ConfigFile/Text cuts into lines; toml_quote and parse_toml_scalar stand there too, and
--   the reader in ConfigFile/Table. The set of keys written is a list. Creating the directory and
--   changing its owner are left out. ConfigFile/Lines, Scalars, Keys, Entries and Others lead up to
--   ConfigFile/Written. ConfigFile/Readers is the interface of a reader that goes through the lines
--   of the file: ReadBack fills it with read_config_table, Reread with the reload of src/main.cpp.
-- LuaThread: src/tabs/luatab.cpp, LuaScript::wake and add_timer, and of lua_thread_fn and
--   rpc_thread_fn the parts that collect responses, fire timers and serve requests. Lua is the
--   parameter Lua: a coroutine runs to its next yield, and the timers that it sets and wakes on the
--   way are set and woken when it stops. A std::map is a list in the order of its keys
--   (LuaThread/Map). The two loops that may go on for ever, `drive` and `fire_due`, run on fuel,
--   and say so where it ends. luaL_ref and luaL_unref are left out. LuaThread/State has the state
--   and the timers, LuaThread/Requests the allowlist and what a coroutine yields; LuaThread/Wake,
--   Firing and Allowlist have the theorems.
-- LuaTab: src/tabs/luatab.cpp, LuaTab::handle_focused_event. LuaTab/State has the members that it
--   reads and writes and HitList::hit of src/components/hit_list.hpp, LuaTab/Overlay the keys of
--   the text input and of the QR overlay, LuaTab/Highlight those of the panels. A panel is a table
--   with its selected row, or a summary; a table stands in one panel, since btcui_table makes a new
--   one. format_cell and ftxui::Box::Contain are parameters. The loop of next_selectable runs on as
--   many rounds as there are panels. LuaTab/Editor and Editing have the text input, Focus, Nearest,
--   Highlighted and Arrows the arrows, Panels, Cursor, Fits, Keys, Handled and Steps what every
--   step keeps, Hits, Clicked and Clicks the mouse.
-- Tools: src/tabs/tools.cpp, ToolsTab with its handlers by name and its broadcast thread, whose two
--   steps are that the call ends and that its result is stored. What the node answers is a
--   parameter; the transactions sent, the searches and the shutdown are recorded. Tools/Broadcast
--   and Tools/Race have the theorems.
-- Poll: src/poll.cpp, poll_rpc with a definition for each of its parts; Poll/Core has those of the
--   four calls, Poll/State AppState, PeerInfo and BlockStat of src/state.hpp. What the node
--   answers, the text of the clock and the arithmetic on doubles are parameters; an update of the
--   state is one function, which the others follow in the order of the code, without other threads
--   between them. The loop over the blocks runs twenty rounds. Poll/Recent and Poll/Tips have the
--   theorems.
-- Bitcoind: src/bitcoind.cpp, find_bitcoind and launch_bitcoind. What stat() finds and what pipe(),
--   fork(), read() and waitpid() answer are parameters; the loop along PATH runs on as many rounds
--   as the path has bytes. Bitcoind/Finding and Bitcoind/Output have the theorems.
-- Application: src/main.cpp, the event handler of Application::run and the thread that launches
--   bitcoind, whose two steps are that it clears launch_in_flight and that it sets launch_done. It
--   may take them between the loads and the stores of the handler too, which Pauses says. The
--   handlers of the tabs are the parameter Handlers, in which Application/Search puts the search of
--   the Mempool tab. An event is what the handler tells apart. Application/Overlay has the state
--   and the keys without a connection, Application/Steps the interleavings with the launch thread;
--   Application/Counts, SearchBar, Search and Launch have the theorems.
-- Config: src/main.cpp, network_subdir, cookie_path, apply_cookie and the part of configure that
--   chooses the network; the text of the cookie file is an argument.
-- Reload: src/main.cpp, the list of the Lua tabs when the configuration is read again: spec_path,
--   extract and the three loops. A tab is what script_path() and finished() tell of it, and a hole
--   of the pool is left out. Reload/Specs is how the specs are read, with parse_tab_spec and
--   make_lua_tab, for tabs that are their options and what their constructor starts, a parameter.
--   Reload/Kept and Again have the theorems, Reload/Script those on the path of a spec.
-- Search: src/search.cpp, perform_tx_search part by part. What the node answers to a call of the
--   search's RpcClient is the parameter `node`, an exception or the reply; the arithmetic on
--   doubles is the parameter Arithmetic. A part returns the result as far as it got, with the
--   exception that it left with; Search/Fields is what it reads of the reply for a transaction.
--   Search/Miner is extract_miner of src/format.hpp, Search/Kinds and Search/Fallback have the
--   theorems.
--
-- Not modelled: all other drawing with FTXUI, the other Lua bindings, the operating system's calls,
-- the Windows branches, the printing of doubles and local times, and the QR code generator, which
-- is another project's; nor the rest of main.cpp (the options of the command line, the loops of the
-- threads), paths.hpp and the peers tab.
pub mod Base
pub mod Json
pub mod Rpc
pub mod Application
pub mod Bitcoind
pub mod Config
pub mod ConfigFile
pub mod Format
pub mod LuaTab
pub mod LuaTable
pub mod LuaThread
pub mod Mempool
pub mod Poll
pub mod Reload
pub mod Render
pub mod Search
pub mod State
pub mod Tools
