-- ===== src/Verification/Score.antt =====
-- RunHeuristicVerification of internal/verification/heuristic.go: how the checks' results make a
-- score and a verdict. A detail holds output of foreign tools, so it is a list of bytes.
use vibls_assignment.Common.{
  ℕ, zero, suc, ◌+◌, ◌-◌, ◌*◌, ◌/◌, ◌≤◌, ◌<◌, String, ◌≡◌, ◌↔◌, Bool, true, not, ◌&&◌, ◌||◌, List,
  [], ◌∷◌, arith, ltb, leb, eqb, if◌then◌else◌, leb→le, le→leb, length, keep,
}
use vibls_assignment.Common.Text.{Bytes, codes, cat, decimal, contains}
use native.Mathlib.Nat.{le-div_iff_mul-le, div-le_of_le-mul}

pub record HeuristicCheck : Type 0 where
  pub name : String
  pub passed : Bool
  pub detail : Bytes

pub record HeuristicVerdict : Type 0 where
  pub passed : Bool
  pub score : ℕ
  pub checks : List HeuristicCheck
  pub summary : String

-- A check whose detail has one of these words is not counted.
unfoldable pub is_counted : HeuristicCheck → Bool
is_counted c =
    not (contains c.detail (codes "not installed") || contains c.detail (codes "skipping"))

pub record Tally : Type 0 where
  pub passed : ℕ
  pub total : ℕ

abbrev pub tally_step : Tally → HeuristicCheck → Tally
tally_step t c =
    if is_counted c
    then record { passed = (if c.passed then t.passed + 1 else t.passed); total = t.total + 1 }
    else t

unfoldable pub tally : Tally → List HeuristicCheck → Tally
tally t [] = t
tally t (c ∷ cs) = tally (tally_step t c) cs

abbrev fraction : ℕ → ℕ → ℕ → String
fraction count total score =
    cat (decimal count)
      (cat "/" (cat (decimal total) (cat " checks (score: " (cat (decimal score) "/100)"))))

-- A total of 0 is set to 1.
abbrev divisor : ℕ → ℕ
divisor total = if eqb total 0 then 1 else total

unfoldable pub score_of : ℕ → ℕ → ℕ
score_of passed total = let score = passed * 100 / total in if ltb 100 score then 100 else score

-- What RunHeuristicVerification makes of the four checks.
unfoldable pub verdict_of : List HeuristicCheck → HeuristicVerdict
verdict_of checks =
    let t = tally (record { passed = 0; total = 0 }) checks in
    let total = divisor t.total in
    let score = score_of t.passed total in
    let passed = leb 50 score in
    record {
      passed = passed;
      score = score;
      checks = checks;
      summary =
          (if passed
            then cat "passed " (fraction t.passed total score)
            else cat "failed " (fraction (total - t.passed) total score));
    }

-- How many of the counted checks there are, and how many of them passed.
abbrev pub counted : List HeuristicCheck → ℕ
counted checks = length (keep is_counted checks)

abbrev pub succeeded : List HeuristicCheck → ℕ
succeeded checks = length (keep (λ c. is_counted c && c.passed) checks)

pub tally-counts :
    (t : Tally) (checks : List HeuristicCheck)
    → ((tally t checks).passed ≡ t.passed + succeeded checks)
      × ((tally t checks).total ≡ t.total + counted checks)
unfolding tally
tally-counts t [] = ground arith
tally-counts t (c ∷ cs) = ground (arith, tally-counts (tally_step t c) cs)

succeeded_le_counted : (checks : List HeuristicCheck) → succeeded checks ≤ counted checks
succeeded_le_counted [] = ground arith
succeeded_le_counted (c ∷ cs) = ground (arith, succeeded_le_counted cs)

half_iff : {s n : ℕ} → 0 < n → s ≤ n → (s * 100 / n ≤ 100) × ((50 ≤ s * 100 / n) ↔ (n ≤ 2 * s))
half_iff {s = s} {n = n} some_counted at_most =
    let (to_product, from_product) =
      le-div_iff_mul-le {k = n} {x = 50} {y = s * 100} some_counted in
    (
      div-le_of_le-mul n (ground arith),
      (λ h. (let h' = to_product h in ground (arith, h')), λ h. from_product (ground (arith, h))),
    )

score_of_lem :
    (s n : ℕ)
    → s ≤ n
    → (score_of s (divisor n) ≡ (if eqb n 0 then 0 else s * 100 / n))
      × (score_of s (divisor n) ≤ 100)
      × ((50 ≤ score_of s (divisor n)) ↔ ((0 < n) × (n ≤ 2 * s)))
unfolding score_of
score_of_lem s zero none_counted = ground arith
score_of_lem s (suc n) at_most =
    let (cap, half) = half_iff {s = s} {n = suc n} (ground arith) at_most in
    ground (arith, cap, half)

-- The score is the whole percentage of the counted checks that passed, 0 if none is counted, and
-- never above 100 before the code caps it; the verdict is "passed" exactly if a check is counted
-- and at least half of the counted checks passed.
pub verdict_of-passed :
    (checks : List HeuristicCheck)
    → ((verdict_of checks).score
        ≡ (if eqb (counted checks) 0 then 0 else succeeded checks * 100 / counted checks))
      × ((verdict_of checks).score ≤ 100)
      × (((verdict_of checks).passed ≡ true)
          ↔ ((0 < counted checks) × (counted checks ≤ 2 * succeeded checks)))
unfolding verdict_of
verdict_of-passed checks =
    let start : Tally = record { passed = 0; total = 0 } in
    let counts = tally-counts start checks in
    let p : (tally start checks).passed ≡ succeeded checks = ground (arith, counts) in
    let t : (tally start checks).total ≡ counted checks = ground (arith, counts) in
    let (score, cap, half) =
      score_of_lem (succeeded checks) (counted checks) (succeeded_le_counted checks) in
    rw (p, t) (score, cap, (λ h. half.0 (leb→le 50 _ h), λ h. le→leb 50 _ (half.1 h)))
