-- ===== src/Common/Text.antt =====
-- What the source uses of Go's strings, bytes, strconv and fmt. Where the code only compares and
-- joins texts they are `String`s; where it walks their bytes they are lists of numbers.
use Prim.Native.Nat.{ℕ, zero, suc, ◌+◌, ◌/◌, ◌%◌}
use Prim.Native.Char.{code}
use Prim.Native.String as Str
use Prim.Native.String.{String}
use mathlib.Core.Path.{◌≡◌, refl}
use mathlib.Core.Logic.{◌↔◌}
use native.Mathlib.Omega.{arith}
use mathlib.Core.Bool.{Bool, true, false, ◌&&◌, ◌||◌}
use mathlib.Core.Option.{Option, none, some}
use mathlib.Core.List.{List, [], ◌∷◌, ◌++◌}
use vibls_assignment.Common.Tests.{ltb, eqb, eqb_iff, if◌then◌else◌}
use vibls_assignment.Common.Lists.{is_empty}

abbrev pub Bytes : Type 0
Bytes = List ℕ

-- The bytes of an ASCII text.
abbrev pub codes : String → Bytes
codes String.[] = []
codes (String.◌∷◌ c s) = code c ∷ codes s

-- a + b on Go strings.
abbrev pub cat : String → String → String
cat s t = Str.◌++◌ s t

abbrev pub digit_text : ℕ → String
digit_text zero = "0"
digit_text (suc zero) = "1"
digit_text (suc (suc zero)) = "2"
digit_text (suc (suc (suc zero))) = "3"
digit_text (suc (suc (suc (suc zero)))) = "4"
digit_text (suc (suc (suc (suc (suc zero))))) = "5"
digit_text (suc (suc (suc (suc (suc (suc zero)))))) = "6"
digit_text (suc (suc (suc (suc (suc (suc (suc zero))))))) = "7"
digit_text (suc (suc (suc (suc (suc (suc (suc (suc zero)))))))) = "8"
digit_text (suc (suc (suc (suc (suc (suc (suc (suc (suc n))))))))) = "9"

-- The digits of a number, lowest first. The number itself is enough fuel: it falls by division.
unfoldable pub digits_of : ℕ → ℕ → List ℕ
digits_of zero n = (n % 10) ∷ []
digits_of (suc fuel) n =
    let rest = digits_of fuel (n / 10) in if ltb n 10 then n ∷ [] else (n % 10) ∷ rest

abbrev pub texts : List ℕ → String → String
texts [] acc = acc
texts (d ∷ ds) acc = texts ds (cat (digit_text d) acc)

-- %d of a number that is not negative.
unfoldable pub decimal : ℕ → String
unfolding digits_of
decimal n = texts (digits_of n n) ""

-- bytes.Equal
abbrev pub bytes_eq : Bytes → Bytes → Bool
bytes_eq [] [] = true
bytes_eq [] (d ∷ t) = false
bytes_eq (c ∷ s) [] = false
bytes_eq (c ∷ s) (d ∷ t) = eqb c d && bytes_eq s t

-- What is left behind a prefix, if it is one.
abbrev pub strip_prefix : Bytes → Bytes → Option Bytes
strip_prefix [] s = some s
strip_prefix (c ∷ prefix) [] = none
strip_prefix (c ∷ prefix) (d ∷ s) = if eqb c d then strip_prefix prefix s else none

abbrev pub has_prefix : Bytes → Bytes → Bool
has_prefix s prefix = elim (strip_prefix prefix s) [ none ↦ false | some rest ↦ true ]

-- strings.TrimPrefix: one prefix is taken off, if it is there.
abbrev pub trim_prefix : Bytes → Bytes → Bytes
trim_prefix s prefix = elim (strip_prefix prefix s) [ none ↦ s | some rest ↦ rest ]

abbrev pub contains : Bytes → Bytes → Bool
contains [] sub = is_empty sub
contains (c ∷ s) sub = has_prefix (c ∷ s) sub || contains s sub

-- strings.HasSuffix
abbrev pub has_suffix : Bytes → Bytes → Bool
has_suffix [] suffix = is_empty suffix
has_suffix (c ∷ s) suffix = bytes_eq (c ∷ s) suffix || has_suffix s suffix

abbrev pub count_byte : ℕ → Bytes → ℕ
count_byte b [] = 0
count_byte b (c ∷ s) = (if eqb c b then 1 else 0) + count_byte b s

pub bytes_eq_iff : (s t : Bytes) → (bytes_eq s t ≡ true) ↔ (s ≡ t)
bytes_eq_iff [] [] = ground arith
bytes_eq_iff [] (d ∷ t) = ground arith
bytes_eq_iff (c ∷ s) [] = ground arith
bytes_eq_iff (c ∷ s) (d ∷ t) = ground (arith, bytes_eq_iff s t)

pub strip_prefix-eq :
    (prefix s rest : Bytes) → strip_prefix prefix s ≡ some rest → s ≡ prefix ++ rest
strip_prefix-eq [] s rest h = ground arith
strip_prefix-eq (c ∷ prefix) [] rest h = cc
strip_prefix-eq (c ∷ prefix) (d ∷ s) rest h =
    ground (arith, eqb_iff c d, strip_prefix-eq prefix s rest)

pub strip_prefix-append : (prefix rest : Bytes) → strip_prefix prefix (prefix ++ rest) ≡ some rest
strip_prefix-append [] rest = refl
strip_prefix-append (c ∷ prefix) rest = ground (arith, strip_prefix-append prefix rest)
