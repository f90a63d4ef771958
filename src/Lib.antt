-- ===== src/Lib.antt =====
-- Verification library of the admin scripts under scripts/ of the Dune: Awakening egg.
--
-- Base holds what the parts share: tests on numbers, lists, text as code points (`strip`, `split`,
-- `partition` and `in` of Python's `str`), signed integers, Python's `int(text)`, and JSON values.
--
-- GiveItem models scripts/admin_inventory_plan.py and the line protocol of `cmd_give_item` in
-- scripts/admin-inventory.py. Plan: `required_stack_count` and `plan_give_item_stacks` with its
-- sort and its two loops. Build: `validate_give_item_input`, `max_items_by_volume`, the two
-- `ensure_*_capacity` checks and `build_give_item_plan`. The loop over new stacks takes fuel; it is
-- given the quantity, and every round takes at least one item. Quantities are checked as signed
-- integers; stack sizes and ids are numbers of the database, so not negative. Volumes are floats:
-- their operations are the parameter `Floats`. Error messages are values, not texts.
--
-- Schedule models scripts/admin_schedule.py. Time: `_iso`, `_parse_iso` and `_slot_today`; an
-- instant is a number of microseconds, a stored stamp a number of seconds. Due: `restart_due`,
-- `backup_due`, `task_due`. Ledger: `SchedulerLedger`. Action: effects. Each effect of the scripts
-- (a run of admin-publish.sh, a call of the panel, mock-k8s, the clock) is a question to the
-- parameter `Env`, whose answer may depend on all earlier effects, may be an exception, or the death
-- of the process; the list of effects made is the `trace`. Runners: `run_backup`, `run_broadcast`,
-- `run_scale_instance`, `run_task`, `restart` of scripts/admin_pelican.py and `resolve_scale_key` of
-- scripts/admin_instances.py. Tick: `run_tick`, `arm_restart`, `cancel_restart` and the scan loop.
-- Settings have the shape that `validate_config` gives them. Not modelled there: how the settings
-- are read and validated, the texts of details (they are values, and are not cut to length), the
-- order of ACME in its thread (its start is an event), HTTP and subprocess plumbing, and
-- `online_count_for_map` behind its answer. Year limits of `datetime` are left out.
--
-- Autoscaler models scripts/admin_autoscaler.py. Settings: `validate_config` and its parts over
-- JSON values (Base.Json). Decide: `decide_map` with `_needed_for_load`. Pool:
-- `decide_dimension_pool`, the dict of timers as a list of pairs, reasons left out. Instants are
-- microseconds, stored stamps whole seconds; SCALE_REPLICAS_MAX is the constant of
-- scripts/admin_instances.py. Tail: `read_new_log_lines` over bytes. Demand: `parse_travel_demand`
-- and `parse_dim_rows` over lines; the case folding of `re`, `lower` of a character, and the decoding
-- and splitting of bytes into lines are parameters. Store: `AutoscalerLedger`. Tick: `run_tick`,
-- `run_wake` and `run_dd_tick`; what mock-k8s, the commands of admin-publish.sh, the clock and the
-- log file give is the `Input` of a pass, the requests it makes are its `trace`, and `none` is the
-- exception that ends it. Loop: `load_config` and a pass of `scan-loop`. Not modelled there: the
-- texts of reasons and messages, `live_status`, `summarize_dim_pool`, the list of runs, and the
-- subprocesses and HTTP calls themselves.
--
-- Progression models scripts/admin_progression.py. Tables: the tables of data/admin as records, so
-- that the theorems name what they need of them. Level: `xp_to_level` with its binary search,
-- `xp_to_next`, `intel_at_level`, the keystones, `char_xp_summary` and `award_char_xp_outcome`. The
-- search takes fuel; it is given one round more than there are levels, and every round narrows its
-- bounds. Faction: reputation, tiers and their names. XP and changes are signed; levels, ids, spent
-- points and stored reputation are not. Not modelled: the loading of the files, the presets
-- and `pg_text_array`.
--
-- Battlepass models scripts/admin_battlepass.py. Store: the tables of tiers, claims, seen markers and
-- grants, `_record_claim`, `_enqueue_grant`, `reset_claims`, `reseed_tiers`; a table is a list of rows
-- under keys (Base.Table), read in the order of its insertions where the query names none. Deliver:
-- `_deliver_grant`, with the exit codes of `award-intel` as the parameter `Award`. Tick: `run_tick`
-- and `grant_account`, with the reads of the game's database as a parameter that may fail, upon which
-- the transaction is rolled back. A `Reach` is any sequence of these operations. Not modelled: the
-- death of the process within a transaction, the counts of the log line, texts for people, the
-- checks of tiers, and the files of catalog and settings.
--
-- Events models the event engine of scripts/admin_events.py and the rewards of
-- scripts/admin_rewards.py. Rewards: the plan of a reward, its cursor (the value that its text
-- holds) and `deliver`; the hash of a reward is a parameter. Store: the claims, `_seal_granted`,
-- `_record_failed`, `reset_claims`. Engine: `_apply_outcome`, the commands of `make_grant_runner`,
-- whose runs are a parameter, and the zone test, over floats as a parameter. Tick:
-- `_evaluate_event`, `_backfill`, `_retry_pass` and `run_tick`; a read of the game that fails rolls
-- the tables back. A `Reach` is any sequence of ticks without such failures, of edits, and of resets
-- of other events. Not modelled: the texts of announcements, the counts of the log line, the checks
-- of definitions, and the death of the process within a tick.
--
-- Ini models scripts/admin_ini_merge.py. Lines: its regular expressions on the body of a line, with
-- the case folding of `re.IGNORECASE` as a parameter. Cut: `splitlines` of Python, which cuts a text
-- into lines with their ends, and `join`. Merge: the upserts, which cut a text, go over its lines in
-- one loop, which the three functions spell out each, and join what they wrote; the readers, which
-- cut it again; `render_value` and `env_value_to_apply`. Normalize: `coerce_decimal_comma` and
-- `normalize_value`, over the text of the value; how a float is shown is a parameter.
--
-- Welcome models scripts/admin_welcome.py. Package: `validate_items` over JSON values, with `str` of
-- what is no text as a parameter, `parse_accounts_csv` over lines, `active_package` and
-- `render_announce`; versions and announcements of the configuration are texts. Store:
-- `WelcomeLedger`. Scan: `scan_once`, `grant_account`, `run_scan` and a pass of `scan-loop`; the
-- answer of each `give-item` is a parameter, in `Script`, and may be an exception; so is whether a
-- `broadcast` raises one that is not caught. The list of players and the configuration are `none` where reading them raises. Not modelled there: names of
-- characters, times, the texts of reasons, and `list_grants`.
--
-- Market models scripts/admin_market.py. Codes and Category: the tables and masks of categories.
-- Pricing: the prices and `build_listings`, over floats as the parameter `Floats`, of which
-- PricingLaws asks that its operations round correctly; the numbers of the catalogue are not negative, and its items come sorted. Buys: `select_buys`, with the throws of the
-- dice as a sequence. Patch: `validate_config_patch` and what `set-config` writes, over the values
-- that `int` and `float` make of the patch. Tick: `run_buy_tick`, `run_tick` and a pass of
-- `scan-loop`, with the readers of the candidates and of the status; the answers of admin-publish.sh
-- are the parameter `Env`. Not modelled there: a configuration whose values have other types than
-- those that are written, and the commands that only print.
--
-- Tests holds runs on concrete inputs, and the theorems at inputs that meet their conditions.
mod Base
pub mod GiveItem
pub mod Ini
pub mod Schedule
pub mod Autoscaler
pub mod Battlepass
pub mod Events
pub mod Progression
pub mod Welcome
pub mod Market
mod Tests
