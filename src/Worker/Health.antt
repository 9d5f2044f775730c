-- ===== src/Worker/Health.antt =====
-- internal/worker/health.go: the health check polls the pods until all are ready, then looks at
-- one service. Each turn of the loop is one event of a list. A turn begins before the deadline and
-- then waits for its tick, so the last poll can come after the deadline. The client of Kubernetes is
-- outside.
use vibls_assignment.Common.{
  ℕ, ◌+◌, ◌≤◌, ◌<◌, String, ◌≡◌, refl, ◌↔◌, inl, inr, Bool, true, false, ◌&&◌, Option, none, some,
  List, [], ◌∷◌, arith, ◌==◌, ltb, eqb, if◌then◌else◌, Bool-cases, Option-cases, length, any, All,
}
use vibls_assignment.Common.Text.{cat, decimal}
use vibls_assignment.Worker.Pipeline.{DeploymentHealth}

pub record Pod : Type 0 where
  pub running : Bool  -- the phase is Running
  pub conditions : List (String × String)  -- type and status

-- What a turn of the loop meets: the context is done, the list call fails, or the pods.
pub data Poll : Type 0 where
  cancelled : String → Poll
  list_failed : Poll
  pods : List Pod → Poll

pub record Waited : Type 0 where
  pub ready : ℕ
  pub total : ℕ
  pub error : Option String

abbrev pub is_pod_ready : Pod → Bool
is_pod_ready p = p.running && any (λ c. c.0 == "Ready" && c.1 == "True") p.conditions

abbrev pub count_ready : List Pod → ℕ
count_ready [] = 0
count_ready (p ∷ ps) = (if is_pod_ready p then 1 else 0) + count_ready ps

abbrev timeout_error : String → ℕ → ℕ → String
timeout_error timeout ready total =
    cat "timeout after "
      (cat timeout (cat ": " (cat (decimal ready) (cat "/" (cat (decimal total) " pods ready")))))

-- The loop, with the counts of the last list call.
unfoldable pub wait_from : String → ℕ → ℕ → List Poll → Waited
wait_from timeout ready total [] = record {
  ready = ready;
  total = total;
  error = some (timeout_error timeout ready total);
}
wait_from timeout ready total (cancelled e ∷ polls) = record {
  ready = 0;
  total = 0;
  error = some e;
}
wait_from timeout ready total (list_failed ∷ polls) = wait_from timeout ready total polls
wait_from timeout ready total (pods ps ∷ polls) =
    let later = wait_from timeout (count_ready ps) (length ps) polls in
    if eqb (count_ready ps) (length ps) && ltb 0 (length ps)
    then record { ready = count_ready ps; total = length ps; error = none }
    else later

abbrev pub wait_for_pods_ready : String → List Poll → Waited
wait_for_pods_ready timeout = wait_from timeout 0 0

-- The calls for services and endpoints: an error, no service, or the first service's addresses.
pub data Services : Type 0 where
  services_error : String → Services
  no_services : String → Services
  service : (name : String) → Option (List (List String)) → (endpoints_error : String) → Services

abbrev pub has_address : List (List String) → Bool
has_address [] = false
has_address ([] ∷ subsets) = has_address subsets
has_address ((a ∷ more) ∷ subsets) = true

unfoldable pub check_service_endpoint : Services → Bool × Option String
check_service_endpoint (services_error e) = (false, some (cat "list services: " e))
check_service_endpoint (no_services namespace) =
    (false, some (cat "no services found in namespace " namespace))
check_service_endpoint (service name none e) =
    (false, some (cat "get endpoints for " (cat name (cat ": " e))))
check_service_endpoint (service name (some subsets) e) =
    if has_address subsets
    then (true, none)
    else (false, some (cat "service " (cat name " has no ready endpoints")))

abbrev service_details : Option String → String
service_details none = ""
service_details (some e) = cat "service endpoint check: " e

abbrev after_pods : Waited → Option String → Services → DeploymentHealth
after_pods w (some e) services = record {
  ready = false;
  pods_ready = w.ready;
  pods_total = w.total;
  service_up = false;
  details = cat "pod readiness check: " e;
}
after_pods w none services = record {
  ready = eqb w.ready w.total && (check_service_endpoint services).0;
  pods_ready = w.ready;
  pods_total = w.total;
  service_up = (check_service_endpoint services).0;
  details = service_details (check_service_endpoint services).1;
}

-- The client's configuration can fail first; its error is already prefixed.
unfoldable pub health_check : Option String → String → List Poll → Services → DeploymentHealth
unfolding wait_from
health_check (some e) timeout polls services = record {
  ready = false;
  pods_ready = 0;
  pods_total = 0;
  service_up = false;
  details = e;
}
health_check none timeout polls services =
    let w = wait_for_pods_ready timeout polls in after_pods w w.error services

-- All pods of a list call are ready, and there is one.
abbrev pub AllReady : List Pod → Type 0
AllReady ps = (0 < length ps) × All (λ p. is_pod_ready p ≡ true) ps

-- A list call, in a turn of the loop that begins before the deadline, finds all pods ready, and the
-- context is not done before it.
pub data Settles : List Poll → Type 0 where
  settled : {ps : List Pod} {polls : List Poll} → AllReady ps → Settles (pods ps ∷ polls)
  retried : {polls : List Poll} → Settles polls → Settles (list_failed ∷ polls)
  waited : {ps : List Pod} {polls : List Poll} → Settles polls → Settles (pods ps ∷ polls)

count_ready_le : (ps : List Pod) → count_ready ps ≤ length ps
count_ready_le [] = ground arith
count_ready_le (p ∷ ps) = ground (arith, count_ready_le ps)

count_ready-AllReady :
    (ps : List Pod) → (count_ready ps ≡ length ps) ↔ All (λ p. is_pod_ready p ≡ true) ps
count_ready-AllReady [] = (λ h. tt, λ h. refl)
count_ready-AllReady (p ∷ ps) =
    let rest = count_ready-AllReady ps in
    let bound = count_ready_le ps in
    (
      λ h. (ground (arith, h, bound), rest.0 (ground (arith, h, bound))),
      λ (a, b). (let same = rest.1 b in ground (arith, a, same)),
    )

wait_from-Settles :
    (timeout : String) (r n : ℕ) (polls : List Poll)
    → ((wait_from timeout r n polls).error ≡ none) ↔ Settles polls
unfolding wait_from
wait_from-Settles timeout r n polls = (to r n polls, from r n polls)
  where
    to : (r n : ℕ) (polls : List Poll) → (wait_from timeout r n polls).error ≡ none → Settles polls
    to r n [] h = cc
    to r n (cancelled e ∷ polls) h = cc
    to r n (list_failed ∷ polls) h = retried (to r n polls h)
    to r n (pods ps ∷ polls) h =
        elim (Bool-cases (eqb (count_ready ps) (length ps) && ltb 0 (length ps))) [
          | inl all ↦
              settled (ground (arith, all), (count_ready-AllReady ps).0 (ground (arith, all)))
          | inr some_not ↦
              waited (to (count_ready ps) (length ps) polls (ground (arith, h, some_not)))
        ]

    from :
        (r n : ℕ) (polls : List Poll) → Settles polls → (wait_from timeout r n polls).error ≡ none
    from r n [] s = elim s [ ]
    from r n (cancelled e ∷ polls) s = elim s [ ]
    from r n (pods ps ∷ polls) (settled (some_pod, all)) =
        let same = (count_ready-AllReady ps).1 all in ground (arith, same, some_pod)
    from r n (list_failed ∷ polls) (retried s) = from r n polls s
    from r n (pods ps ∷ polls) (waited s) =
        let later = from (count_ready ps) (length ps) polls s in ground (arith, later)

wait_from-equal :
    (timeout : String) (r n : ℕ) (polls : List Poll)
    → (wait_from timeout r n polls).error ≡ none
    → (wait_from timeout r n polls).ready ≡ (wait_from timeout r n polls).total
unfolding wait_from
wait_from-equal timeout r n [] h = cc
wait_from-equal timeout r n (cancelled e ∷ polls) h = cc
wait_from-equal timeout r n (list_failed ∷ polls) h = wait_from-equal timeout r n polls h
wait_from-equal timeout r n (pods ps ∷ polls) h =
    ground (arith, h, wait_from-equal timeout (count_ready ps) (length ps) polls)

after_pods-ready_iff :
    (w : Waited) (services : Services)
    → (w.error ≡ none → w.ready ≡ w.total)
    → ((after_pods w w.error services).ready ≡ true)
      ↔ ((w.error ≡ none) × ((check_service_endpoint services).0 ≡ true))
after_pods-ready_iff w services same = elim (Option-cases w.error) [
  | inl fine ↦ ground (arith, fine, same)
  | inr (e, failed) ↦ ground (arith, failed)
]

pub health_check-ready_iff :
    (config : Option String) (timeout : String) (polls : List Poll) (services : Services)
    → ((health_check config timeout polls services).ready ≡ true)
      ↔ ((config ≡ none) × Settles polls × ((check_service_endpoint services).0 ≡ true))
unfolding health_check
health_check-ready_iff (some e) timeout polls services = (λ h. cc, λ h. cc (h.0))
health_check-ready_iff none timeout polls services =
    let pods_part = wait_from-Settles timeout 0 0 polls in
    let whole =
      after_pods-ready_iff (wait_for_pods_ready timeout polls) services
        (wait_from-equal timeout 0 0 polls) in
    (
      λ h. (refl, pods_part.0 (whole.0 h).0, (whole.0 h).1),
      λ (e, s, up). whole.1 (pods_part.1 s, up),
    )
