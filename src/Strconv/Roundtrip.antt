-- ===== src/Strconv/Roundtrip.antt =====
-- Numbers that are written with %d and read with strconv.ParseInt.
use Prim.Native.Char.{code}
use Prim.Native.String as Str
use Prim.Native.String.append
use vibls_assignment.Common.{
  ℕ, zero, suc, ◌+◌, ◌*◌, ◌/◌, ◌%◌, ◌^◌, ◌≤◌, ◌<◌, String, ◌≡◌, refl, ap, ◌∙◌, ◌≢◌, inl, inr, none,
  some, List, [], ◌∷◌, ◌++◌, arith, ltb, if◌then◌else◌, Bool-cases, All,
}
use vibls_assignment.Common.Text.{Bytes, codes, cat, digit_text, digits_of, texts, decimal}
use vibls_assignment.Common.Text.{texts, digit_text}
use vibls_assignment.Job.{pos}
use vibls_assignment.Strconv.{digits_value, non_negative, parse_int}

pub codes-cat : (s t : String) → codes (cat s t) ≡ codes s ++ codes t
codes-cat Str.String.[] t = ap codes (append.nil t)
codes-cat (Str.String.◌∷◌ c s) t =
    ap codes (append.cons c s t) ∙ ap (λ (r : Bytes). code c ∷ r) (codes-cat s t)

-- The number that digits stand for, lowest first.
abbrev value : List ℕ → ℕ
value [] = 0
value (d ∷ ds) = d + 10 * value ds

codes-digit_text : (d : ℕ) → d < 10 → codes (digit_text d) ≡ (b'0' + d) ∷ []
codes-digit_text zero h = refl
codes-digit_text (suc zero) h = refl
codes-digit_text (suc (suc zero)) h = refl
codes-digit_text (suc (suc (suc zero))) h = refl
codes-digit_text (suc (suc (suc (suc zero)))) h = refl
codes-digit_text (suc (suc (suc (suc (suc zero))))) h = refl
codes-digit_text (suc (suc (suc (suc (suc (suc zero)))))) h = refl
codes-digit_text (suc (suc (suc (suc (suc (suc (suc zero))))))) h = refl
codes-digit_text (suc (suc (suc (suc (suc (suc (suc (suc zero)))))))) h = refl
codes-digit_text (suc (suc (suc (suc (suc (suc (suc (suc (suc zero))))))))) h = refl
codes-digit_text (suc (suc (suc (suc (suc (suc (suc (suc (suc (suc n)))))))))) h =
    absurd (omega arith)

any_fuel : (f g n : ℕ) → n ≤ f → n ≤ g → digits_of f n ≡ digits_of g n
unfolding digits_of
any_fuel zero zero n hf hg = refl
any_fuel zero (suc g) n hf hg = ground arith
any_fuel (suc f) zero n hf hg = ground arith
any_fuel (suc f) (suc g) n hf hg = elim (Bool-cases (ltb n 10)) [
  | inl small ↦ rw small refl
  | inr large ↦ rw (large, any_fuel f g (n / 10) (ground arith) (ground arith)) refl
]

digits_of-value :
    (fuel n : ℕ) → n ≤ fuel → (value (digits_of fuel n) ≡ n) × All (λ d. d < 10) (digits_of fuel n)
unfolding digits_of
digits_of-value zero n h = (omega arith, (omega arith, tt))
digits_of-value (suc fuel) n h = elim (Bool-cases (ltb n 10)) [
  | inl small ↦ rw small (omega arith, (ground arith, tt))
  | inr large ↦
      let (v, digits) = digits_of-value fuel (n / 10) (ground arith) in
      rw large (omega (arith, v), (omega arith, digits))
]

texts-value :
    (ds : List ℕ) (acc : String)
    → All (λ d. d < 10) ds
    → digits_value (codes (texts ds acc)) 0 ≡ digits_value (codes acc) (value ds)
texts-value [] acc h = refl
texts-value (d ∷ ds) acc h =
    texts-value ds (cat (digit_text d) acc) h.1
    ∙ rw (codes-cat (digit_text d) acc, codes-digit_text d h.0) (ground (arith, h.0))

texts-ne-nil :
    (ds : List ℕ) (acc : String) → All (λ d. d < 10) ds → codes acc ≢ [] → codes (texts ds acc) ≢ []
texts-ne-nil [] acc h nonempty = nonempty
texts-ne-nil (d ∷ ds) acc h nonempty =
    texts-ne-nil ds (cat (digit_text d) acc) h.1
      (rw (codes-cat (digit_text d) acc, codes-digit_text d h.0) λ e. cc)

digits_of-cons : (fuel n : ℕ) → (d : ℕ) × (ds : List ℕ) × (digits_of fuel n ≡ d ∷ ds)
unfolding digits_of
digits_of-cons zero n = (n % 10, [], refl)
digits_of-cons (suc fuel) n = elim (Bool-cases (ltb n 10)) [
  | inl small ↦ (n, [], rw small refl)
  | inr large ↦ (n % 10, digits_of fuel (n / 10), rw large refl)
]

digits_text-ne-nil :
    (ds : List ℕ) {d : ℕ} {more : List ℕ}
    → ds ≡ d ∷ more
    → All (λ d. d < 10) ds
    → codes (texts ds "") ≢ []
digits_text-ne-nil [] e h = cc
digits_text-ne-nil (d ∷ ds) e h =
    texts-ne-nil ds (cat (digit_text d) "") h.1
      (rw (codes-cat (digit_text d) "", codes-digit_text d h.0) λ e. cc)

-- Digits alone are read as the number that they stand for.
parse_int-digits :
    (s : Bytes) (n : ℕ) → s ≢ [] → digits_value s 0 ≡ some n → parse_int s ≡ non_negative n
unfolding parse_int
parse_int-digits [] n nonempty h = absurd (nonempty refl)
parse_int-digits (c ∷ s) n nonempty h = ground (arith, h)

pub decimal-ne-nil : (n : ℕ) → codes (decimal n) ≢ []
unfolding decimal
decimal-ne-nil n =
    digits_text-ne-nil (digits_of n n) (digits_of-cons n n).2 (digits_of-value n n (omega arith)).1

pub digits_value-decimal : (n : ℕ) → digits_value (codes (decimal n)) 0 ≡ some n
unfolding decimal
digits_value-decimal n =
    let (v, digits) = digits_of-value n n (omega arith) in
    texts-value (digits_of n n) "" digits ∙ ap (λ (k : ℕ). some k) v

-- A number that is written with %d and read by strconv.ParseInt is itself, and from 2^63 on it is
-- out of range.
pub parse_int-decimal :
    (n : ℕ) → parse_int (codes (decimal n)) ≡ (if ltb n (2 ^ 63) then some (pos n) else none)
parse_int-decimal n =
    parse_int-digits (codes (decimal n)) n (decimal-ne-nil n) (digits_value-decimal n)
