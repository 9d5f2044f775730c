-- ===== src/Verification/Quantities.antt =====
-- parseCPU and parseMemory of internal/verification/heuristic.go. Floating point numbers are the
-- machine's, so they are a parameter.
use vibls_assignment.Common.{
  ℕ, ◌^◌, String, Option, none, some, List, [], ◌∷◌, if◌then◌else◌, is_empty,
}
use vibls_assignment.Common.Text.{Bytes, codes, has_suffix}
use vibls_assignment.Job.{ℤ}
use vibls_assignment.Strconv.{parse_int, trim_space, trim_suffix}

-- strconv.ParseFloat with 64 bits, int64(math.Round(v * float64(k))) and int64(v).
pub record Floats : Type 1 where
  pub Float : Type 0
  pub parse_float : Bytes → Option Float
  pub rounded_times : Float → ℕ → ℤ
  pub whole : Float → ℤ

abbrev scaled : (fl : Floats) → ℕ → Option fl.Float → Option ℤ
scaled fl k none = none
scaled fl k (some v) = some (fl.rounded_times v k)

unfoldable pub parse_cpu : Floats → Bytes → Option ℤ
parse_cpu fl text =
    let s = trim_space text in
    if is_empty s
    then none
    else (if has_suffix s (codes "m")
        then parse_int (trim_suffix s (codes "m"))
        else scaled fl 1000 (fl.parse_float s))

abbrev pub suffixes : List (String × ℕ)
suffixes =
    ("Ei", 2 ^ 60)
    ∷ ("Pi", 2 ^ 50)
    ∷ ("Ti", 2 ^ 40)
    ∷ ("Gi", 2 ^ 30)
    ∷ ("Mi", 2 ^ 20)
    ∷ ("Ki", 2 ^ 10)
    ∷ ("E", 1000000000000000000)
    ∷ ("P", 1000000000000000)
    ∷ ("T", 1000000000000)
    ∷ ("G", 1000000000)
    ∷ ("M", 1000000)
    ∷ ("K", 1000)
    ∷ ("k", 1000)
    ∷ []

abbrev truncated : (fl : Floats) → Option fl.Float → Option ℤ
truncated fl none = none
truncated fl (some v) = some (fl.whole v)

abbrev plain_bytes : Floats → Bytes → Option ℤ → Option ℤ
plain_bytes fl s (some n) = some n
plain_bytes fl s none = truncated fl (fl.parse_float s)

-- The first suffix that fits decides.
unfoldable pub by_suffix : Floats → Bytes → List (String × ℕ) → Option ℤ
by_suffix fl s [] = plain_bytes fl s (parse_int s)
by_suffix fl s ((suffix, multiplier) ∷ more) =
    let rest = by_suffix fl s more in
    if has_suffix s (codes suffix)
    then scaled fl multiplier (fl.parse_float (trim_suffix s (codes suffix)))
    else rest

unfoldable pub parse_memory : Floats → Bytes → Option ℤ
unfolding by_suffix
parse_memory fl text =
    let s = trim_space text in if is_empty s then none else by_suffix fl s suffixes
