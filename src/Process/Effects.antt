-- ===== src/Process/Effects.antt =====
-- A main program as a list of effects and an ending. A Fatal of zerolog ends the process at once, by
-- os.Exit; a deferred call runs only when main returns.
use vibls_assignment.Common.{String, Bool, List, [], ◌∷◌, ◌++◌, if◌then◌else◌}
use vibls_assignment.Common.Text.{Bytes}

-- What has to be closed: the exporter of traces (with its tracer provider), the instance of
-- golang-migrate with its own connection to the database, the connections of the pool, the client of
-- the queue and its server.
pub data Resource : Type 0 where
  exporter migration pool queue_client queue_server : Resource

pub data Effect : Type 0 where
  opened closed : Resource → Effect
  warned : String → Effect
  migrated : Effect
  analysing cleaning_up processing : Effect  -- the worker's loops, and its queue server
  listening : Bytes → Effect
  shutting_down : Effect

pub data Ending : Type 0 where
  returned : Ending
  fatal : String → Ending

pub record Process : Type 0 where
  pub effects : List Effect
  pub ending : Ending

abbrev pub returns : Process
returns = record { effects = []; ending = returned }

abbrev pub dies : String → Process
dies message = record { effects = []; ending = fatal message }

infixr 4 ◌▸◌
abbrev pub ◌▸◌ : Effect → Process → Process
e ▸ k = record k { effects = e ∷ k.effects }

abbrev pub deferred : Resource → Ending → List Effect
deferred r returned = closed r ∷ []
deferred r (fatal message) = []

-- `defer r.Close()` in front of the rest.
abbrev pub closing_after : Resource → Process → Process
closing_after r k = record k { effects = k.effects ++ deferred r k.ending }

-- An error that ends the process.
abbrev pub required : Bool → String → Process → Process
required passed message k = if passed then k else dies message
