-- ===== src/Worker/Manifest.antt =====
-- internal/worker/manifest.go: the data that the templates of the manifests are filled with.
-- Rendering and writing the files are outside; int(cores * 1000) is a parameter.
use vibls_assignment.Common.{
  ℕ, suc, ◌*◌, ◌^◌, String, ◌≡◌, refl, inl, inr, false, Option, none, some, arith, Option-cases,
}
use vibls_assignment.Common.Text.{Bytes, codes, cat, decimal}
use vibls_assignment.Job.{Float64, ℤ, pos, negsuc, ResourceOverrides}
use vibls_assignment.Verification.Quantities.{Floats, parse_cpu, by_suffix, parse_memory}
use vibls_assignment.Verification.Resources.{ResourceContainer, exceeds}
use vibls_assignment.Verification.Bounds.{Within}
use vibls_assignment.Strconv.{parse_int, int_gt}

pub record ManifestData : Type 0 where
  pub name : String
  pub namespace : String
  pub image : String
  pub replicas : ℤ
  pub container_port : ℕ
  pub service_port : ℕ
  pub host : String
  pub cpu_request : String
  pub cpu_limit : String
  pub memory_request : String
  pub memory_limit : String
  pub min_replicas : ℕ
  pub max_replicas : ℕ
  pub target_cpu_utilization : ℕ

abbrev pub default_manifest_data : ManifestData
default_manifest_data = record {
  name = "";
  namespace = "";
  image = "";
  replicas = pos 1;
  container_port = 8080;
  service_port = 80;
  host = "example.local";
  cpu_request = "100m";
  cpu_limit = "500m";
  memory_request = "128Mi";
  memory_limit = "256Mi";
  min_replicas = 1;
  max_replicas = 5;
  target_cpu_utilization = 80;
}

-- %d
abbrev pub signed_decimal : ℤ → String
signed_decimal (pos n) = decimal n
signed_decimal (negsuc n) = cat "-" (decimal (suc n))

abbrev set_replicas : Option ℤ → ManifestData → ManifestData
set_replicas none d = d
set_replicas (some n) d = record d { replicas = n }

abbrev pub set_cpu : (Float64 → ℤ) → Option Float64 → ManifestData → ManifestData
set_cpu millicores none d = d
set_cpu millicores (some cores) d = record d {
  cpu_request = cat (signed_decimal (millicores cores)) "m";
  cpu_limit = cat (signed_decimal (millicores cores)) "m";
}

abbrev set_memory : Option ℤ → ManifestData → ManifestData
set_memory none d = d
set_memory (some mb) d = record d {
  memory_request = cat (signed_decimal mb) "Mi";
  memory_limit = cat (signed_decimal mb) "Mi";
}

abbrev set_overrides : (Float64 → ℤ) → Option ResourceOverrides → ManifestData → ManifestData
set_overrides millicores none d = d
set_overrides millicores (some o) d =
    set_memory o.memory_mb (set_cpu millicores o.cpu_cores (set_replicas o.replicas d))

unfoldable pub manifest_data :
    (Float64 → ℤ) → String → String → String → Option ResourceOverrides → ManifestData
manifest_data millicores job_id namespace image overrides =
    set_overrides millicores overrides (record default_manifest_data {
      name = cat "app-" job_id;
      namespace = namespace;
      image = image;
    })

-- The container of the rendered deployment, as far as its resources go.
abbrev pub container_of : ManifestData → ResourceContainer
container_of d = record {
  name = codes d.name;
  requests = record { cpu = codes d.cpu_request; memory = codes d.memory_request };
  limits = record { cpu = codes d.cpu_limit; memory = codes d.memory_limit };
}

int_gt_irrefl : (i : ℤ) → int_gt i i ≡ false
int_gt_irrefl (pos n) = ground arith
int_gt_irrefl (negsuc n) = ground arith

exceeds_irrefl : (parse : Bytes → Option ℤ) (b : Bytes) → exceeds parse b b ≡ false
exceeds_irrefl parse b = elim (Option-cases (parse b)) [
  | inl unread ↦ ground (arith, unread)
  | inr (i, read) ↦ ground (arith, read, int_gt_irrefl i)
]

default_cpu : (fl : Floats) → exceeds (parse_cpu fl) (codes "100m") (codes "500m") ≡ false
unfolding parse_cpu parse_int
default_cpu fl = refl

default_memory :
    (fl : Floats) (low high : fl.Float)
    → fl.parse_float (codes "128") ≡ some low
    → fl.parse_float (codes "256") ≡ some high
    → fl.rounded_times low (2 ^ 20) ≡ pos (128 * 2 ^ 20)
    → fl.rounded_times high (2 ^ 20) ≡ pos (256 * 2 ^ 20)
    → exceeds (parse_memory fl) (codes "128Mi") (codes "256Mi") ≡ false
unfolding parse_memory by_suffix
default_memory fl low high l h l' h' = ground (arith, l, h, l', h')

-- Whatever the overrides, no request of the generated container exceeds its limit, if the floating
-- point numbers read 128 and 256 and multiply them by 2^20 exactly.
pub manifest_data-Within :
    (fl : Floats) (millicores : Float64 → ℤ) (job_id namespace image : String)
    (overrides : Option ResourceOverrides) (low high : fl.Float)
    → fl.parse_float (codes "128") ≡ some low
    → fl.parse_float (codes "256") ≡ some high
    → fl.rounded_times low (2 ^ 20) ≡ pos (128 * 2 ^ 20)
    → fl.rounded_times high (2 ^ 20) ≡ pos (256 * 2 ^ 20)
    → Within fl (container_of (manifest_data millicores job_id namespace image overrides))
unfolding manifest_data
manifest_data-Within fl millicores job_id namespace image none low high l h l' h' =
    (default_cpu fl, default_memory fl low high l h l' h')
manifest_data-Within fl millicores job_id namespace image (some o) low high l h l' h' =
    set_memory-Within _ o.memory_mb (
      set_cpu-Within _ o.cpu_cores (
        set_replicas-Within base o.replicas (default_cpu fl, default_memory fl low high l h l' h')))
  where
    base : ManifestData
    base = record default_manifest_data {
      name = cat "app-" job_id;
      namespace = namespace;
      image = image;
    }

    set_replicas-Within :
        (d : ManifestData) (n : Option ℤ)
        → Within fl (container_of d)
        → Within fl (container_of (set_replicas n d))
    set_replicas-Within d none w = w
    set_replicas-Within d (some n) w = w

    set_cpu-Within :
        (d : ManifestData) (c : Option Float64)
        → Within fl (container_of d)
        → Within fl (container_of (set_cpu millicores c d))
    set_cpu-Within d none w = w
    set_cpu-Within d (some c) w = (exceeds_irrefl (parse_cpu fl) _, w.1)

    set_memory-Within :
        (d : ManifestData) (m : Option ℤ)
        → Within fl (container_of d)
        → Within fl (container_of (set_memory m d))
    set_memory-Within d none w = w
    set_memory-Within d (some m) w = (w.0, exceeds_irrefl (parse_memory fl) _)
