-- ===== src/Store/Hashes.antt =====
-- The primary key of the table `idempotency_keys` of internal/migrations/files/000002_idempotency.up.sql.
use vibls_assignment.Common.{
  String, ◌≡◌, ◌≢◌, inl, inr, Bool, false, List, [], ◌∷◌, ◌++◌, arith, ◌==◌, eq_iff, Bool-cases,
  keep, any, All, All-append,
}
use vibls_assignment.Store.Rows.{IdempotencyKey}

-- No two keys have one hash.
abbrev pub DistinctHashes : List IdempotencyKey → Type 0
DistinctHashes [] = Unit
DistinctHashes (k ∷ ks) = All (λ j. k.hash ≢ j.hash) ks × DistinctHashes ks

-- A hash that is not found is that of no key.
differ :
    (hash : String) (ks : List IdempotencyKey)
    → any (λ k. k.hash == hash) ks ≡ false
    → All (λ k. k.hash ≢ hash) ks
differ hash [] h = tt
differ hash (k ∷ ks) h =
    (λ e. ground (arith, eq_iff k.hash hash, h, e), differ hash ks (ground (arith, h)))

pub DistinctHashes-append :
    (ks : List IdempotencyKey) (key : IdempotencyKey)
    → DistinctHashes ks
    → any (λ k. k.hash == key.hash) ks ≡ false
    → DistinctHashes (ks ++ key ∷ [])
DistinctHashes-append ks key d free = go ks d (differ key.hash ks free)
  where
    go :
        (ks : List IdempotencyKey)
        → DistinctHashes ks
        → All (λ k. k.hash ≢ key.hash) ks
        → DistinctHashes (ks ++ key ∷ [])
    go [] d h = (tt, tt)
    go (k ∷ ks) d h = (All-append _ ks _ d.0 (h.0, tt), go ks d.1 h.1)

All-keep {ℓ κ} :
    {A : Type ℓ} (P : A → Type κ) (test : A → Bool) (xs : List A) → All P xs → All P (keep test xs)
All-keep P test [] h = tt
All-keep P test (x ∷ xs) h = elim (Bool-cases (test x)) [
  | inl kept ↦ rw kept (h.0, All-keep P test xs h.1)
  | inr gone ↦ rw gone (All-keep P test xs h.1)
]

pub DistinctHashes-keep :
    (test : IdempotencyKey → Bool) (ks : List IdempotencyKey)
    → DistinctHashes ks
    → DistinctHashes (keep test ks)
DistinctHashes-keep test [] d = tt
DistinctHashes-keep test (k ∷ ks) d = elim (Bool-cases (test k)) [
  | inl kept ↦
      rw kept (All-keep (λ j. k.hash ≢ j.hash) test ks d.0, DistinctHashes-keep test ks d.1)
  | inr gone ↦ rw gone (DistinctHashes-keep test ks d.1)
]
