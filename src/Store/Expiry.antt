-- ===== src/Store/Expiry.antt =====
-- DeleteExpiredIdempotencyKeys.
use vibls_assignment.Common.{
  ℕ, ◌+◌, ◌-◌, ◌<◌, String, ◌≡◌, ap, inl, inr, Bool, true, not, some, List, [], ◌∷◌, arith, ◌==◌,
  ltb, Bool-cases, length, keep, find_first, All,
}
use vibls_assignment.Job.{Time}
use vibls_assignment.Store.Rows.{IdempotencyKey, ok, World, first_turn, after}
use vibls_assignment.Store.Keys.{delete_expired_idempotency_keys}

-- A key is older than the given age.
abbrev pub IsExpired : Time → ℕ → IdempotencyKey → Type 0
IsExpired now age k = k.created_at + age < now

keep-young :
    (now age : ℕ) (ks : List IdempotencyKey)
    → All (λ k. ¬ IsExpired now age k) (keep (λ k. not (ltb k.created_at (now - age))) ks)
keep-young now age [] = tt
keep-young now age (k ∷ ks) = elim (Bool-cases (ltb k.created_at (now - age))) [
  | inl old ↦ rw old (keep-young now age ks)
  | inr young ↦ rw young (ground arith, keep-young now age ks)
]

keep-split :
    (test : IdempotencyKey → Bool) (ks : List IdempotencyKey)
    → length (keep test ks) + length (keep (λ k. not (test k)) ks) ≡ length ks
keep-split test [] = omega arith
keep-split test (k ∷ ks) = elim (Bool-cases (test k)) [
  | inl h ↦ rw h (omega (arith, keep-split test ks))
  | inr h ↦ rw h (omega (arith, keep-split test ks))
]

get-keep :
    (hash : String) (test : IdempotencyKey → Bool) (ks : List IdempotencyKey) {k : IdempotencyKey}
    → find_first (λ i. i.hash == hash) ks ≡ some k
    → test k ≡ true
    → find_first (λ i. i.hash == hash) (keep test ks) ≡ some k
get-keep hash test [] h passed = cc
get-keep hash test (i ∷ ks) {k} h passed = elim (Bool-cases (i.hash == hash)) [
  | inl hit ↦ let same : i ≡ k = ground arith in ground (arith, same, ap test same)
  | inr miss ↦ ground (arith, get-keep hash test ks {k = k})
]

-- In any environment in which the deletion succeeds: the keys that are left are those of the table
-- that are not older than the age, the number returned is that of the others, and a key that is not
-- too old is still found under its hash.
pub delete_expired_idempotency_keys_lem :
    (now : Time) (age : ℕ) (w : World) (n : ℕ) (hash : String) (k : IdempotencyKey)
    → (delete_expired_idempotency_keys now age w).0 ≡ ok n
    → find_first (λ i. i.hash == hash) (after w).tables.keys ≡ some k
    → ¬ IsExpired now age k
    → let left = (delete_expired_idempotency_keys now age w).1.tables.keys in
      let keys = (after w).tables.keys in
      All (λ k. ¬ IsExpired now age k) left
      × (n + length left ≡ length keys)
      × (find_first (λ i. i.hash == hash) left ≡ some k)
unfolding delete_expired_idempotency_keys
delete_expired_idempotency_keys_lem now age w n hash k h found young =
    let keys = (after w).tables.keys in
    elim (Bool-cases (first_turn w.turns).fails) [
      | inl failed ↦ ground arith
      | inr works ↦ rw works (
        keep-young now age keys,
        ground (arith, keep-split (λ k. ltb k.created_at (now - age)) keys),
        get-keep hash _ keys found (ground arith),
      )
    ]
