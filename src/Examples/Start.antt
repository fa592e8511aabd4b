-- ===== src/Examples/Start.antt =====
-- Two starts of the program: one in which both threads find their objects, and one in which the
-- watcher's thread is scheduled before its object is made.
use blockchain_indexer.Base.{refl, true, false, some}
use blockchain_indexer.MainProgram.{
  Options, Process, launched, Reaches, launch, next, main_goes_on, watcher_runs, monitor_runs,
  statement, serving, starting_watcher, making_monitor, running, crashed,
}
use blockchain_indexer.MainProgram.StartUp.{both_set, StartedWell, Reaches-StartedWell}

abbrev plain_options : Options
plain_options = record {
  has_coin_params = true;
  has_dump_double_spends = false;
  database_opens = true;
  params_read = true;
}

abbrev branching : Process
branching = record launched { place = starting_watcher; database = true; coin_params = true }

branching-Reaches : Reaches plain_options branching
unfolding statement
branching-Reaches =
    next (next (next (next launch main_goes_on) main_goes_on) main_goes_on) main_goes_on

abbrev up : Process
up = record {
  place = serving;
  database = true;
  coin_params = true;
  mempool_monitor = true;
  block_file_watcher = some both_set;
  http_server = some both_set;
  watcher_thread = running;
  mempool_thread = running;
}

up-Reaches : Reaches plain_options up
unfolding statement
up-Reaches =
    let monitored = next (next (next branching-Reaches main_goes_on) main_goes_on) main_goes_on in
    let watched = next (next monitored (monitor_runs refl)) main_goes_on in
    next (next watched (watcher_runs refl)) main_goes_on

Reaches-StartedWell_example : StartedWell up
Reaches-StartedWell_example = Reaches-StartedWell plain_options up up-Reaches

-- The null pointer is used.
abbrev too_early : Process
too_early = record branching { place = making_monitor; watcher_thread = crashed }

too_early-Reaches : Reaches plain_options too_early
unfolding statement
too_early-Reaches = next (next branching-Reaches main_goes_on) (watcher_runs refl)
