-- ===== src/Tests/Jobs.antt =====
-- The theorems on the worker, on the expiry sweep's job.
use aesmsg.Prelude.{true, [], ◌∷◌, codes}
use aesmsg.Dict
use aesmsg.Link.{pos}
use aesmsg.Worker.{Job, Scheduler, init, start}

abbrev sweep : Job
sweep = record { name = codes "expiry-sweep"; interval_ms = pos 60000; run_on_start = true }

abbrev begun : Scheduler
begun = start (sweep ∷ []) init
