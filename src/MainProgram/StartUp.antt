-- ===== src/MainProgram/StartUp.antt =====
-- What main has set up at each of its statements, whatever the threads have done by then.
use blockchain_indexer.Base.{◌≡◌, ◌⊎◌, inl, inr, refl, Bool, true, false, Bool-cases, none, some}
use blockchain_indexer.MainProgram.{
  Options, Place, checking_options, opening_database, reading_params, choosing, making_dumper,
  dumping, starting_watcher, making_monitor, starting_monitor, making_watcher, making_server,
  serving, returned, aborted, Thread, idle, started, running, crashed, Given, Process, statement,
  used, used_monitor, main_goes_on, watcher_runs, monitor_runs, Reaches, launch, next,
}

abbrev pub is_crashed : Thread → Bool
is_crashed crashed = true
is_crashed _ = false

abbrev pub is_running : Thread → Bool
is_running running = true
is_running _ = false

abbrev pub is_serving : Place → Bool
is_serving serving = true
is_serving _ = false

abbrev pub both_set : Given
both_set = record { database_set = true; monitor_set = true }

abbrev Idle : Process → Type 0
Idle p = (p.watcher_thread ≡ idle) × (p.mempool_thread ≡ idle)

abbrev pub Prepared : Process → Type 0
Prepared p = (p.database ≡ true) × (p.coin_params ≡ true)

-- The watcher's thread may be there, and its object is not.
abbrev Unwatched : Process → Type 0
Unwatched p = Prepared p × (p.block_file_watcher ≡ none) × (is_running p.watcher_thread ≡ false)

abbrev Watched : Process → Type 0
Watched p =
    Prepared p
    × (p.mempool_monitor ≡ true)
    × (p.block_file_watcher ≡ some both_set)
    × (is_crashed p.mempool_thread ≡ false)

Facts : Place → Process → Type 0
Facts checking_options p = Idle p × (p.block_file_watcher ≡ none)
Facts opening_database p = Idle p × (p.block_file_watcher ≡ none)
Facts reading_params p = Idle p × (p.database ≡ true) × (p.block_file_watcher ≡ none)
Facts choosing p = Idle p × Prepared p × (p.block_file_watcher ≡ none)
Facts making_dumper p = Idle p
Facts dumping p = Idle p
Facts starting_watcher p = Idle p × Prepared p × (p.block_file_watcher ≡ none)
Facts making_monitor p = (p.mempool_thread ≡ idle) × Unwatched p
Facts starting_monitor p = (p.mempool_thread ≡ idle) × (p.mempool_monitor ≡ true) × Unwatched p
Facts making_watcher p =
    (is_crashed p.mempool_thread ≡ false) × (p.mempool_monitor ≡ true) × Unwatched p
Facts making_server p = Watched p
Facts serving p = Watched p × (p.http_server ≡ some both_set)
Facts returned p = Idle p
Facts aborted p = Idle p

-- The statements of main keep the facts.
Facts-statement :
    (o : Options) (place : Place) (p : Process)
    → p.place ≡ place
    → Facts place p
    → (at : Place) × ((statement o place p).place ≡ at) × Facts at (statement o place p)
unfolding statement Facts
Facts-statement o checking_options p e (i, n) = elim (Bool-cases o.has_coin_params) [
  | inl t ↦ rw t (opening_database, refl, (i, n))
  | inr t ↦ rw t (returned, refl, i)
]
Facts-statement o opening_database p e (i, n) = elim (Bool-cases o.database_opens) [
  | inl t ↦ rw t (reading_params, refl, (i, refl, n))
  | inr t ↦ rw t (aborted, refl, i)
]
Facts-statement o reading_params p e (i, d, n) = elim (Bool-cases o.params_read) [
  | inl t ↦ rw t (choosing, refl, (i, (d, refl), n))
  | inr t ↦ rw t (aborted, refl, i)
]
Facts-statement o choosing p e (i, r, n) = elim (Bool-cases o.has_dump_double_spends) [
  | inl t ↦ rw t (making_dumper, refl, i)
  | inr t ↦ rw t (starting_watcher, refl, (i, r, n))
]
Facts-statement o making_dumper p e i = (dumping, refl, i)
Facts-statement o dumping p e i = (dumping, e, i)
Facts-statement o starting_watcher p e (i, r, n) = (making_monitor, refl, (i.1, (r, n, refl)))
Facts-statement o making_monitor p e (i, u) = (starting_monitor, refl, (i, refl, u))
Facts-statement o starting_monitor p e (i, m, u) = (making_watcher, refl, (refl, m, u))
Facts-statement o making_watcher p e (c, m, (r, n, w)) =
    (making_server, refl, (r, m, rw (r.0, m) refl, c))
Facts-statement o making_server p e (r, m, made, c) =
    (serving, refl, ((r, m, made, c), rw (r.0, m) refl))
Facts-statement o serving p e f = (serving, e, f)
Facts-statement o returned p e i = (returned, e, i)
Facts-statement o aborted p e i = (aborted, e, i)

-- A thread that was not started does not run.
Facts-watcher :
    (place : Place) (p : Process)
    → p.watcher_thread ≡ started
    → Facts place p
    → Facts place (record p { watcher_thread = used p.block_file_watcher })
unfolding Facts
Facts-watcher checking_options p s f = cc
Facts-watcher opening_database p s f = cc
Facts-watcher reading_params p s f = cc
Facts-watcher choosing p s f = cc
Facts-watcher making_dumper p s f = cc
Facts-watcher dumping p s f = cc
Facts-watcher starting_watcher p s f = cc
Facts-watcher making_monitor p s (i, (r, n, w)) = (i, (r, n, rw n refl))
Facts-watcher starting_monitor p s (i, m, (r, n, w)) = (i, m, (r, n, rw n refl))
Facts-watcher making_watcher p s (c, m, (r, n, w)) = (c, m, (r, n, rw n refl))
Facts-watcher making_server p s f = f
Facts-watcher serving p s f = f
Facts-watcher returned p s f = cc
Facts-watcher aborted p s f = cc

Facts-monitor :
    (place : Place) (p : Process)
    → p.mempool_thread ≡ started
    → Facts place p
    → Facts place (record p { mempool_thread = used_monitor p.mempool_monitor })
unfolding Facts
Facts-monitor checking_options p s f = cc
Facts-monitor opening_database p s f = cc
Facts-monitor reading_params p s f = cc
Facts-monitor choosing p s f = cc
Facts-monitor making_dumper p s f = cc
Facts-monitor dumping p s f = cc
Facts-monitor starting_watcher p s f = cc
Facts-monitor making_monitor p s f = cc
Facts-monitor starting_monitor p s f = cc
Facts-monitor making_watcher p s (c, m, u) = (rw m refl, m, u)
Facts-monitor making_server p s (r, m, made, c) = (r, m, made, rw m refl)
Facts-monitor serving p s ((r, m, made, c), h) = ((r, m, made, rw m refl), h)
Facts-monitor returned p s f = cc
Facts-monitor aborted p s f = cc

Facts-at : (place at : Place) (p : Process) → place ≡ at → Facts at p → Facts place p
Facts-at place at p e f = rw e f

Reaches-Facts : {o : Options} {p : Process} → Reaches o p → Facts p.place p
unfolding Facts
Reaches-Facts launch = ((refl, refl), refl)
Reaches-Facts {o} (next {p} r main_goes_on) =
    let (at, e, f) = Facts-statement o p.place p refl (Reaches-Facts r) in Facts-at _ at _ e f
Reaches-Facts (next {p} r (watcher_runs s)) = Facts-watcher p.place p s (Reaches-Facts r)
Reaches-Facts (next {p} r (monitor_runs s)) = Facts-monitor p.place p s (Reaches-Facts r)

-- What the objects and the threads may rely on.
abbrev pub StartedWell : Process → Type 0
StartedWell p =
    (is_crashed p.mempool_thread ≡ false)
    × ((is_running p.watcher_thread ≡ false) ⊎ (p.block_file_watcher ≡ some both_set))
    × ((is_serving p.place ≡ false)
        ⊎ (Prepared p × (p.block_file_watcher ≡ some both_set) × (p.http_server ≡ some both_set)))

Idle-StartedWell : (p : Process) → is_serving p.place ≡ false → Idle p → StartedWell p
Idle-StartedWell p s (w, m) = (rw m refl, inl (rw w refl), inl s)

Facts-StartedWell : (place : Place) (p : Process) → p.place ≡ place → Facts place p → StartedWell p
unfolding Facts
Facts-StartedWell checking_options p e f = Idle-StartedWell p (rw e refl) f.0
Facts-StartedWell opening_database p e f = Idle-StartedWell p (rw e refl) f.0
Facts-StartedWell reading_params p e f = Idle-StartedWell p (rw e refl) f.0
Facts-StartedWell choosing p e f = Idle-StartedWell p (rw e refl) f.0
Facts-StartedWell making_dumper p e i = Idle-StartedWell p (rw e refl) i
Facts-StartedWell dumping p e i = Idle-StartedWell p (rw e refl) i
Facts-StartedWell starting_watcher p e f = Idle-StartedWell p (rw e refl) f.0
Facts-StartedWell making_monitor p e (i, (r, n, w)) = (rw i refl, inl w, inl (rw e refl))
Facts-StartedWell starting_monitor p e (i, m, (r, n, w)) = (rw i refl, inl w, inl (rw e refl))
Facts-StartedWell making_watcher p e (c, m, (r, n, w)) = (c, inl w, inl (rw e refl))
Facts-StartedWell making_server p e (r, m, made, c) = (c, inr made, inl (rw e refl))
Facts-StartedWell serving p e ((r, m, made, c), h) = (c, inr made, inr (r, made, h))
Facts-StartedWell returned p e i = Idle-StartedWell p (rw e refl) i
Facts-StartedWell aborted p e i = Idle-StartedWell p (rw e refl) i

-- Whatever the order in which main and its two threads go on, whatever the command line, and
-- whether or not the database opens and the parameters can be read: the thread of the mempool
-- monitor never uses a null pointer; when the thread of the block file watcher runs, its object has
-- the database and the mempool monitor; and when the server serves, the database is open, the
-- parameters are read, and the watcher and the server have both.
pub Reaches-StartedWell : (o : Options) (p : Process) → Reaches o p → StartedWell p
Reaches-StartedWell o p r = Facts-StartedWell p.place p refl (Reaches-Facts r)
