-- ===== src/Lib.antt =====
-- Zapret-GUI starts winws.exe with the arguments of a strategy, searches for a strategy that
-- works, and keeps its settings, presets and lists in files. This library models the program's
-- own logic: zapret_core.py, zapret_runtime.py, zapret_search.py and zapret_measurements.py,
-- and the supervisor in zapret_app.pyw.
--
-- Base holds the shared helpers: equality and Boolean tests, lists, a stable sort, and
-- dictionaries as association lists. Text models Python's str as a list of code points (lower
-- and upper map the letters of ASCII, Latin-1 and Cyrillic), with strip, split, splitlines and
-- replace in its children. Result holds the exceptions of the program and the values that carry
-- them. Json is the type of what json.load returns; parser and printer are a parameter, Codec.
--
-- Paths, Args, GameFilter: the names of the files; game_filter_values, substitute, tokenize and
-- build_args_str; normalize_port_ranges, _read_game_filter and set_game_mode, over the text of
-- the flag file.
--
-- Disk, Transaction: _retry_locked, _atomic_write and _write_transaction over a disk from names
-- to contents, one temporary file, and a list that says for each access whether the file system
-- answers, finds the file locked (PermissionError) or fails with another OSError. The list may
-- be of any length, so every sequence of faults is covered; a retry makes at most twenty
-- attempts, as in the code, and needs no other fuel.
--
-- Presets, Config, Import: validate_presets, load_config, save_config, update_config,
-- _validate_config and import_settings. Import uses the transaction for the two files that it
-- replaces.
--
-- Domains: normalize_domain, write_user_domains and read_user_domains. The IDNA codec is a
-- parameter of which nothing is assumed.
--
-- Ranking, Search, Measure: the order of the presets for a search, run_search and summarize,
-- and the samples of measure_hosts. The trial of a strategy and the network are parameters;
-- latencies are whole microseconds, and a median of an even number of them is rounded down.
--
-- Runtime: RuntimeController as a step relation. Events are numbers, the events that are set
-- are a list, and the locks of the class make each method one step, so that an interleaving of
-- threads is a sequence of steps. Tickets is what it promises, without events: an office of
-- numbered tickets.
--
-- Doh: _doh_previous, _validate_dns_snapshot, doh_enable and doh_disable. The adapters and
-- PowerShell are a parameter of which nothing is assumed: a command that fails may leave any
-- state. Each write of the settings is done or raises an OSError.
--
-- Bats, Deploy, Telegram: the strategies in .bat files up to load_presets; ensure_runtime,
-- verify_runtime and refresh_defaults over the disk; the settings of the Telegram proxy and the
-- line of its statistics. What open, os.listdir and SHA-256 answer is given.
--
-- Hostlists: validate_hostlist, update_lists and update_ipset, over the transaction, the
-- settings and the disk; the network and the UTF-8 decoder are parameters.
--
-- Exclusions, Update: the lists of exclusions and the old hosts block, as functions of the
-- texts of the files; the versions, the offer of an update, and the checks of its archive.
--
-- Windows, Service: the service zapret and the processes winws.exe of zapret_core.py. A
-- command, a process and the network are parameters of which nothing is assumed; what was run
-- is recorded. A poll makes at most twenty queries, as in the code, and needs no other fuel.
-- What other threads do to the controller and to Windows between two steps is a parameter too.
-- That they may also write fields of the application, such as the active strategy, is not
-- modelled: the theorems on the supervisor speak of runs in which no other thread writes these.
--
-- Supervisor: of zapret_app.pyw, how the bypass is started, stopped and switched, the recovery
-- (Recovery), the turns of the watchdog (Watchdog) and the automatic search with what it gives
-- back (AutoSearch), over the World of Windows. The settings, presets and game filter are those
-- at the start of the operation; the strategy in the file of settings is replaced whole or not
-- at all, as Disk shows for each write.
--
-- Not modelled: tgproxy (a copy of another project's library), the windows of zapret_app.pyw
-- and its other workers, the tasks and exclusions of autostart and Defender, and what diagnosis
-- prints.
pub mod Base
pub mod Text
pub mod Paths
pub mod Result
pub mod Args
pub mod GameFilter
pub mod Disk
pub mod Transaction
pub mod Json
pub mod Presets
pub mod Bats
pub mod Deploy
pub mod Telegram
pub mod Config
pub mod Import
pub mod Domains
pub mod Runtime
pub mod Ranking
pub mod Measure
pub mod Search
pub mod Windows
pub mod Service
pub mod Supervisor
pub mod Doh
pub mod Exclusions
pub mod Update
pub mod Hostlists
mod Tests
