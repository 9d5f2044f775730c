-- ===== src/Strconv.antt =====
-- What internal/api and internal/verification use of Go's strconv and strings on numbers. A byte
-- above 127 is no space here: Unicode's other spaces are left out.
pub mod Roundtrip
use vibls_assignment.Common.{
  ℕ, zero, suc, ◌+◌, ◌-◌, ◌*◌, ◌^◌, Bool, true, false, ◌&&◌, ◌||◌, Option, none, some, [], ◌∷◌, ltb,
  leb, eqb, if◌then◌else◌,
}
use vibls_assignment.Common.Text.{Bytes, trim_prefix}
use vibls_assignment.Job.{ℤ, pos, negsuc}
use mathlib.Core.List.{reverse}

abbrev pub digits_value : Bytes → ℕ → Option ℕ
digits_value [] acc = some acc
digits_value (c ∷ s) acc =
    if leb b'0' c && leb c b'9' then digits_value s (acc * 10 + (c - b'0')) else none

abbrev pub unsigned : Bytes → Option ℕ
unsigned [] = none
unsigned (c ∷ s) = digits_value (c ∷ s) 0

abbrev pub negated : ℕ → ℤ
negated zero = pos 0
negated (suc n) = negsuc n

-- The range of int64.
abbrev pub non_negative : ℕ → Option ℤ
non_negative n = if ltb n (2 ^ 63) then some (pos n) else none

abbrev pub non_positive : ℕ → Option ℤ
non_positive n = if leb n (2 ^ 63) then some (negated n) else none

abbrev pub ranged : Option ℕ → (ℕ → Option ℤ) → Option ℤ
ranged none range = none
ranged (some n) range = range n

abbrev pub signed : ℕ → Bytes → Option ℤ
signed c s =
    if eqb c b'-'
    then ranged (unsigned s) non_positive
    else (if eqb c b'+'
        then ranged (unsigned s) non_negative
        else ranged (unsigned (c ∷ s)) non_negative)

-- strconv.ParseInt(s, 10, 64), and strconv.Atoi where an int has 64 bits.
unfoldable pub parse_int : Bytes → Option ℤ
parse_int [] = none
parse_int (c ∷ s) = signed c s

abbrev pub is_space : ℕ → Bool
is_space c = eqb c 32 || (leb 9 c && leb c 13)

abbrev pub trim_left : Bytes → Bytes
trim_left [] = []
trim_left (c ∷ s) = if is_space c then trim_left s else c ∷ s

-- strings.TrimSpace
abbrev pub trim_space : Bytes → Bytes
trim_space s = reverse (trim_left (reverse (trim_left s)))

-- strings.TrimSuffix
abbrev pub trim_suffix : Bytes → Bytes → Bytes
trim_suffix s suffix = reverse (trim_prefix (reverse s) (reverse suffix))

abbrev pub int_gt : ℤ → ℤ → Bool
int_gt (pos m) (pos n) = ltb n m
int_gt (pos m) (negsuc n) = true
int_gt (negsuc m) (pos n) = false
int_gt (negsuc m) (negsuc n) = ltb m n
