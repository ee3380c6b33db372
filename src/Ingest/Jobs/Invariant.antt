-- ===== src/Ingest/Jobs/Invariant.antt =====
-- What the calls of a job store keep.
use synamcps_server.Prelude.{List}
use synamcps_server.Ingest.Jobs.{Job, JobStore}
use synamcps_server.Ingest.Jobs.Laws.{IsRange}
use synamcps_server.Ingest.Jobs.Steps.{IsWellFormed, AllFailUnfinished, Steps, here, next}
use synamcps_server.Ingest.Jobs.Numbering.{Step-IsNumbered}
use synamcps_server.Ingest.Jobs.Active.{Step-one_active}

-- Whatever calls run on a well-formed job store, jobs stay numbered from 1 and none is tried more
-- often than it may be; and a document has one pending or running job of a kind at most. The
-- condition is that MarkFailed is not called for a job that is completed or failed already, which
-- the store does not check.
pub Steps-IsWellFormed :
    (range : List Job → List Job)
    → IsRange range
    → {s t : JobStore} → IsWellFormed s
    → (steps : Steps range s t) → AllFailUnfinished steps
    → IsWellFormed t
Steps-IsWellFormed range is_range w here run = w
Steps-IsWellFormed range is_range w (next steps step) (before, run) =
    let v = Steps-IsWellFormed range is_range w steps before in
    record {
      numbering = Step-IsNumbered range is_range step v.numbering;
      one_active = Step-one_active range is_range step run v;
    }
