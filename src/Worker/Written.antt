-- ===== src/Worker/Written.antt =====
-- The CPU that internal/worker/manifest.go writes with %dm, as parseCPU of
-- internal/verification/heuristic.go reads it.
use vibls_assignment.Common.{
  ℕ, suc, ◌^◌, ◌≤◌, ◌<◌, String, ◌≡◌, refl, sym, ap, ◌∙◌, ◌≢◌, inl, inr, true, false, some, [], ◌∷◌,
  ◌++◌, arith, eqb_iff, Option-cases,
}
use vibls_assignment.Common.Text.{Bytes, codes, cat, decimal, trim_prefix, has_suffix}
use vibls_assignment.Job.{Float64, ℤ, pos, negsuc, ResourceOverrides}
use mathlib.Core.List.{reverse, reverse-append, reverse-reverse}
use vibls_assignment.Strconv.{parse_int, trim_space, trim_suffix, is_space, digits_value}
use vibls_assignment.Strconv.Roundtrip.{
  codes-cat, parse_int-decimal, digits_value-decimal, decimal-ne-nil,
}
use vibls_assignment.Verification.Quantities.{Floats, parse_cpu}
use vibls_assignment.Worker.Manifest.{manifest_data, signed_decimal, container_of}

-- The range of a Go int of 64 bits.
abbrev pub IsInt64 : ℤ → Type 0
IsInt64 (pos n) = n < 2 ^ 63
IsInt64 (negsuc n) = suc n ≤ 2 ^ 63

reverse_last : (s : Bytes) (b : ℕ) → reverse (s ++ b ∷ []) ≡ b ∷ reverse s
reverse_last s b = reverse-append s (b ∷ [])

trim_space-same :
    (c : ℕ) (s : Bytes) (b : ℕ)
    → is_space c ≡ false
    → is_space b ≡ false
    → trim_space (c ∷ s ++ b ∷ []) ≡ c ∷ s ++ b ∷ []
trim_space-same c s b hc hb =
    rw (hc, reverse_last (c ∷ s) b, hb)
      (ap reverse (sym (reverse_last (c ∷ s) b)) ∙ reverse-reverse (c ∷ s ++ b ∷ []))

has_suffix-last : (s : Bytes) (b : ℕ) → has_suffix (s ++ b ∷ []) (b ∷ []) ≡ true
has_suffix-last [] b = ground (arith, eqb_iff b b)
has_suffix-last (c ∷ s) b = ground (arith, has_suffix-last s b)

trim_prefix-first : (b : ℕ) (s : Bytes) → trim_prefix (b ∷ s) (b ∷ []) ≡ s
trim_prefix-first b s = ground (arith, eqb_iff b b)

trim_suffix-last : (s : Bytes) (b : ℕ) → trim_suffix (s ++ b ∷ []) (b ∷ []) ≡ s
trim_suffix-last s b =
    ap (λ (r : Bytes). reverse (trim_prefix r (b ∷ []))) (reverse_last s b)
    ∙ ap reverse (trim_prefix-first b (reverse s))
    ∙ reverse-reverse s

parse_cpu-millis :
    (fl : Floats) (c : ℕ) (s : Bytes)
    → is_space c ≡ false
    → parse_cpu fl (c ∷ s ++ codes "m") ≡ parse_int (c ∷ s)
unfolding parse_cpu
parse_cpu-millis fl c s h =
    rw
      (trim_space-same c s b'm' h refl, has_suffix-last (c ∷ s) b'm', trim_suffix-last (c ∷ s) b'm')
      refl

digits_first :
    (s : Bytes) (n : ℕ)
    → s ≢ []
    → digits_value s 0 ≡ some n
    → (c : ℕ) × (more : Bytes) × (s ≡ c ∷ more) × (is_space c ≡ false)
digits_first [] n nonempty h = absurd (nonempty refl)
digits_first (c ∷ s) n nonempty h = (c, s, refl, ground (arith, h))

-- A number's text begins with a sign or a digit.
signed_first :
    (i : ℤ)
    → (c : ℕ) × (more : Bytes) × (codes (signed_decimal i) ≡ c ∷ more) × (is_space c ≡ false)
signed_first (pos n) =
    digits_first (codes (decimal n)) n (decimal-ne-nil n) (digits_value-decimal n)
signed_first (negsuc n) = (b'-', codes (decimal (suc n)), codes-cat "-" (decimal (suc n)), refl)

negative :
    (s : Bytes) (n : ℕ)
    → s ≢ []
    → digits_value s 0 ≡ some (suc n)
    → suc n ≤ 2 ^ 63
    → parse_int (b'-' ∷ s) ≡ some (negsuc n)
unfolding parse_int
negative [] n nonempty h bound = absurd (nonempty refl)
negative (c ∷ s) n nonempty h bound = ground (arith, h, bound)

parse_int-signed_decimal : (i : ℤ) → IsInt64 i → parse_int (codes (signed_decimal i)) ≡ some i
parse_int-signed_decimal (pos n) h = ground (arith, parse_int-decimal n)
parse_int-signed_decimal (negsuc n) h =
    rw (codes-cat "-" (decimal (suc n))) (
      negative (codes (decimal (suc n))) n (decimal-ne-nil (suc n)) (digits_value-decimal (suc n))
        h)

millis :
    (fl : Floats) (i : ℤ) → IsInt64 i → parse_cpu fl (codes (cat (signed_decimal i) "m")) ≡ some i
millis fl i h =
    let (c, more, text, visible) = signed_first i in
    ap (parse_cpu fl) (codes-cat (signed_decimal i) "m" ∙ ap (λ (s : Bytes). s ++ codes "m") text)
    ∙ parse_cpu-millis fl c more visible
    ∙ ap parse_int (sym text)
    ∙ parse_int-signed_decimal i h

-- A job that asks for a number of CPUs which is an int64 in thousandths gets them: the request
-- and the limit in the manifest are read back by the verification as that number of thousandths.
pub manifest_data-parse_cpu :
    (fl : Floats) (millicores : Float64 → ℤ) (job_id namespace image : String)
    (o : ResourceOverrides) (cores : Float64)
    → o.cpu_cores ≡ some cores
    → IsInt64 (millicores cores)
    → let c = container_of (manifest_data millicores job_id namespace image (some o)) in
      (parse_cpu fl c.requests.cpu ≡ some (millicores cores))
      × (parse_cpu fl c.limits.cpu ≡ some (millicores cores))
unfolding manifest_data
manifest_data-parse_cpu fl millicores job_id namespace image o cores asked h =
    elim (Option-cases o.memory_mb) [
      | inl none_asked ↦
          rw (asked, none_asked) (millis fl (millicores cores) h, millis fl (millicores cores) h)
      | inr (mb, more) ↦
          rw (asked, more) (millis fl (millicores cores) h, millis fl (millicores cores) h)
    ]
