-- ===== src/MainProgram.antt =====
-- src/main.cpp: the start of the program, with its two threads, as steps that interleave.
pub mod StartUp
use blockchain_indexer.Base.{◌≡◌, Bool, true, false, if◌then◌else◌, Option, none, some}

-- What the command line has, and whether the database opens and the coin's parameters can be read.
pub record Options : Type 0 where
  pub has_coin_params : Bool
  pub has_dump_double_spends : Bool
  pub database_opens : Bool
  pub params_read : Bool

-- The next statement of main.
pub data Place : Type 0 where
  checking_options : Place
  opening_database : Place
  reading_params : Place
  choosing : Place
  making_dumper : Place
  dumping : Place
  starting_watcher : Place
  making_monitor : Place
  starting_monitor : Place
  making_watcher : Place
  making_server : Place
  serving : Place
  returned : Place
  aborted : Place

pub data Thread : Type 0 where
  idle : Thread
  started : Thread
  running : Thread
  crashed : Thread

-- Whether the pointers that a constructor got were set.
pub record Given : Type 0 where
  pub database_set : Bool
  pub monitor_set : Bool

pub record Process : Type 0 where
  pub place : Place
  pub database : Bool
  pub coin_params : Bool
  pub mempool_monitor : Bool
  pub block_file_watcher : Option Given
  pub http_server : Option Given
  pub watcher_thread : Thread
  pub mempool_thread : Thread

abbrev pub launched : Process
launched = record {
  place = checking_options;
  database = false;
  coin_params = false;
  mempool_monitor = false;
  block_file_watcher = none;
  http_server = none;
  watcher_thread = idle;
  mempool_thread = idle;
}

abbrev pub pointers : Process → Given
pointers p = record { database_set = p.database; monitor_set = p.mempool_monitor }

-- One statement of main. `httpServer->run()` and `dumpDoubleSpends` are not left.
unfoldable pub statement : Options → Place → Process → Process
statement o checking_options p = record p {
  place = if o.has_coin_params then opening_database else returned;
}
statement o opening_database p =
    if o.database_opens
    then record p { place = reading_params; database = true }
    else record p { place = aborted }
statement o reading_params p =
    if o.params_read
    then record p { place = choosing; coin_params = true }
    else record p { place = aborted }
statement o choosing p = record p {
  place = if o.has_dump_double_spends then making_dumper else starting_watcher;
}
statement o making_dumper p = record p { place = dumping; block_file_watcher = some (pointers p) }
statement o dumping p = p
statement o starting_watcher p = record p { place = making_monitor; watcher_thread = started }
statement o making_monitor p = record p { place = starting_monitor; mempool_monitor = true }
statement o starting_monitor p = record p { place = making_watcher; mempool_thread = started }
statement o making_watcher p = record p {
  place = making_server;
  block_file_watcher = some (pointers p);
}
statement o making_server p = record p { place = serving; http_server = some (pointers p) }
statement o serving p = p
statement o returned p = p
statement o aborted p = p

-- A thread's first use of its object: a null pointer is undefined behaviour.
abbrev pub used : Option Given → Thread
used none = crashed
used (some _) = running

abbrev pub used_monitor : Bool → Thread
used_monitor set = if set then running else crashed

-- The next thing that happens: main goes on, or a thread that was started gets to its first call.
pub data Scheduled (o : Options) (p : Process) : Process → Type 0 where
  main_goes_on : Scheduled o p (statement o p.place p)
  watcher_runs :
      p.watcher_thread ≡ started
      → Scheduled o p (record p { watcher_thread = used p.block_file_watcher })
  monitor_runs :
      p.mempool_thread ≡ started
      → Scheduled o p (record p { mempool_thread = used_monitor p.mempool_monitor })

pub data Reaches (o : Options) : Process → Type 0 where
  launch : Reaches o launched
  next : {p q : Process} → Reaches o p → Scheduled o p q → Reaches o q
