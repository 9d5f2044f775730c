-- ===== src/Process/Open.antt =====
-- What some effects leave open, and the effects of a process that returns.
use vibls_assignment.Common.{
  String, ◌≡◌, refl, ap, Bool, true, false, List, [], ◌∷◌, ◌++◌, if◌then◌else◌, any,
}
use vibls_assignment.Process.Effects.{
  Resource, exporter, migration, pool, queue_client, queue_server, Effect, opened, closed, warned,
  migrated, analysing, cleaning_up, processing, listening, shutting_down, returned, Process, ◌▸◌,
  closing_after, required,
}

abbrev same_resource : Resource → Resource → Bool
same_resource exporter exporter = true
same_resource migration migration = true
same_resource pool pool = true
same_resource queue_client queue_client = true
same_resource queue_server queue_server = true
same_resource _ _ = false

abbrev closes : Resource → Effect → Bool
closes r (closed q) = same_resource r q
closes r _ = false

-- The resources that are opened and closed by no later effect.
unfoldable pub still_open : List Effect → List Resource
still_open [] = []
still_open (opened r ∷ es) =
    let rest = still_open es in if any (closes r) es then rest else r ∷ rest
still_open (closed r ∷ es) = still_open es
still_open (warned m ∷ es) = still_open es
still_open (migrated ∷ es) = still_open es
still_open (analysing ∷ es) = still_open es
still_open (cleaning_up ∷ es) = still_open es
still_open (processing ∷ es) = still_open es
still_open (listening address ∷ es) = still_open es
still_open (shutting_down ∷ es) = still_open es

-- A process that has these effects if it returns.
abbrev pub Does : List Effect → Process → Type 0
Does es k = k.ending ≡ returned → k.effects ≡ es

pub required-Does :
    (passed : Bool) (message : String) (k : Process) {es : List Effect}
    → Does es k
    → Does es (required passed message k)
required-Does true message k n = n
required-Does false message k n = λ h. cc

pub then-Does : (e : Effect) (k : Process) {es : List Effect} → Does es k → Does (e ∷ es) (e ▸ k)
then-Does e k n h = ap (λ es. e ∷ es) (n h)

pub closing_after-Does :
    (r : Resource) (k : Process) {es : List Effect}
    → Does es k
    → Does (es ++ closed r ∷ []) (closing_after r k)
closing_after-Does r k n h = rw (h, n h) refl
