-- ===== src/Examples/Stages.antt =====
-- Addresses of Redis, middlewares, documents that are applied, the judge and the routes.
use mathlib.Core.List.{Perm}
use vibls_assignment.Store.Order.{IsDistinct, IsFalling}
use vibls_assignment.Store.Paging.{matches}
use vibls_assignment.Api.Walk.{handle_list_jobs-walk, pages, walk, page_answer}
use vibls_assignment.Store.Rows.{calm}
use vibls_assignment.Common.{
  refl, ◌*◌, ◌*◌, ◌≤◌, keep, length, leb, if◌then◌else◌, ◌⊎◌, ◌++◌, false, ◌∷◌, true, inr, arith,
  none, ◌≡◌, All, Option, some, List, [],
}
use vibls_assignment.Api.Read.{options_of, handle_list_jobs, ListQuery}
use vibls_assignment.Common.Text.{codes, decimal}
use vibls_assignment.Job.{pos, ResourceOverrides}
use vibls_assignment.Verification.Yaml.{answer}
use vibls_assignment.Worker.Apply.{Entry, namespaced, Cluster, with_namespace, apply_stage}
use vibls_assignment.Worker.Applied.{patches_of, all_docs, Applies, apply_stage-Applies}
use vibls_assignment.Job.{ResourceOverrides}
use vibls_assignment.Verification.Quantities.{parse_cpu}
use vibls_assignment.Worker.Manifest.{manifest_data}
use vibls_assignment.Worker.Written.{manifest_data-parse_cpu}
use vibls_assignment.Worker.Render.{
  File, Renderer, output_dir, all_files, write_all, manifest_stage, manifest_stage-none,
}
use vibls_assignment.Examples.Checks.{whole_bytes}
use vibls_assignment.Api.Created.{at}
use vibls_assignment.Api.Http.{Response}
use vibls_assignment.Api.Auth.{AuthzInput, bool_value, Evaluation, results, auth_middleware, passed}
use vibls_assignment.Api.Serve.{post_jobs, Incoming, Service, serve, serve-changes}
use vibls_assignment.Examples.Values.{platform, codec, two_jobs, open_queue}

-- Every document is a named deployment, and the second patch is refused.
abbrev pub cluster : Cluster
cluster = record {
  setup_error = none;
  has_clientset = true;
  has_namespace = false;
  can_create = true;
  read_dir = answer (
      record { name = codes "a.yaml"; is_dir = false }
      ∷ record { name = codes "b.txt"; is_dir = false }
      ∷ []);
  read_error = λ e. "read manifest dir";
  read_file = λ file. some (codes "kind: A\n---\nkind: B");
  decode = λ text. some (record {
    kind = some "Deployment";
    api_version = "apps/v1";
    name = "app";
    namespace = "";
    json = "{}";
    marshal_error = none;
  });
  mapping = λ version kind. namespaced;
  patch = λ before p. if leb 2 (length before) then some "refused" else none;
}

abbrev entries : List Entry
entries =
    record { name = codes "a.yaml"; is_dir = false }
    ∷ record { name = codes "b.txt"; is_dir = false }
    ∷ []

apply_stage-Applies_example :
    Applies cluster "prod"
      (patches_of cluster "prod" (all_docs cluster "prod" entries))
      (with_namespace cluster "prod" [])
      (apply_stage cluster "prod" [])
apply_stage-Applies_example = apply_stage-Applies cluster "prod" entries [] refl refl

abbrev pub always : Option (AuthzInput → Evaluation)
always = some (λ input. results ((bool_value true ∷ []) ∷ []))

abbrev pub incoming : Incoming
incoming = record {
  http = record {
    method = "POST";
    route_pattern = some "/api/v1/jobs";
    path = codes "/api/v1/jobs";
    namespace_param = "";
    authorization = codes "Bearer dev-token";
    body = [];
  };
  query = record { status = ""; namespace = ""; limit = []; offset = [] };
  id = "";
}

abbrev served : Response × Service
served =
    serve platform codec always 5 "" post_jobs incoming
      (record { server = at two_jobs open_queue; requests = [] })

serve-changes_example :
    (served.1.requests
      ≡ record { method = "POST"; pattern = codes "/api/v1/jobs"; status = decimal served.0.code }
        ∷ [])
    × ((served.1.server ≡ at two_jobs open_queue)
        ⊎ ((post_jobs ≡ post_jobs) × (auth_middleware always incoming.http ≡ passed)))
serve-changes_example =
    serve-changes platform codec always 5 "" post_jobs incoming two_jobs open_queue []

abbrev half_cpu : ResourceOverrides
half_cpu = record { cpu_cores = some 5; memory_mb = none; replicas = none }

manifest_data-parse_cpu_example :
    (parse_cpu whole_bytes
        (codes (manifest_data (λ c. pos 500) "id" "sandbox" "image" (some half_cpu)).cpu_request)
      ≡ some (pos 500))
    × (parse_cpu whole_bytes
          (codes (manifest_data (λ c. pos 500) "id" "sandbox" "image" (some half_cpu)).cpu_limit)
        ≡ some (pos 500))
manifest_data-parse_cpu_example =
    manifest_data-parse_cpu whole_bytes (λ c. pos 500) "id" "sandbox" "image" half_cpu 5 refl
      (omega arith)

abbrev pub renderer : Renderer
renderer = record {
  make_dir = λ dir. none;
  template_dir = inr (
      record { name = codes "old"; is_dir = true }
      ∷ record { name = codes "service.go.tmpl"; is_dir = false }
      ∷ []);
  read_file = λ name. inr "kind: Service";
  parse = λ name text. none;
  fill = λ name text data_value. inr text;
  write_file = λ before file. none;
}

abbrev service_file : File
service_file = record {
  directory = "/w/manifests/id";
  name = codes "service.yaml";
  content = "kind: Service";
}

rendered_lem :
    manifest_stage renderer (λ c. pos 500) "" "id" "sandbox" "image" (some half_cpu) "/w" []
    ≡ (none, service_file ∷ [])
unfolding manifest_stage write_all
rendered_lem = refl

manifest_stage-none_example :
    (entries : List Entry) × (files : List File) × (renderer.make_dir (output_dir "" "/w" "id")
      ≡ none)
    × (renderer.template_dir ≡ inr entries)
    × (all_files renderer "/w/manifests/id"
          (manifest_data (λ c. pos 500) "id" "sandbox" "image" (some half_cpu))
          entries
        ≡ some files)
    × (service_file ∷ [] ≡ [] ++ files)
manifest_stage-none_example =
    manifest_stage-none renderer (λ c. pos 500) "" "id" "sandbox" "image" (some half_cpu) "/w" []
      (service_file ∷ []) rendered_lem

abbrev all_jobs : ListQuery
all_jobs = record { status = ""; namespace = ""; limit = []; offset = [] }

room_lem : length (keep (matches (options_of all_jobs)) two_jobs.jobs) ≤ 2 * 1
unfolding options_of
room_lem = omega arith

-- The two jobs were created at 3 and at 4.
apart_lem : IsDistinct (λ r. r.created_at) (keep (matches (options_of all_jobs)) two_jobs.jobs)
unfolding options_of
apart_lem = (((λ e. omega (arith, e)), tt), (tt, tt))

handle_list_jobs-walk_example :
    All
      (λ a.
        handle_list_jobs platform a (calm two_jobs)
        ≡ (page_answer platform a two_jobs, calm two_jobs))
      (walk all_jobs 1 2 0)
    × Perm
        (pages platform (walk all_jobs 1 2 0) two_jobs.jobs)
        (keep (matches (options_of all_jobs)) two_jobs.jobs)
    × IsFalling (λ r. r.created_at) (pages platform (walk all_jobs 1 2 0) two_jobs.jobs)
handle_list_jobs-walk_example =
    handle_list_jobs-walk platform all_jobs two_jobs 1 2 (omega arith) (omega arith) (omega arith)
      apart_lem room_lem
