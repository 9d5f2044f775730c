-- ===== src/Store/Keys.antt =====
-- The table `idempotency_keys`: GetIdempotencyKey, CreateIdempotencyKeyTx and
-- DeleteExpiredIdempotencyKeys of internal/models/db.go.
use vibls_assignment.Common.{
  ℕ, ◌-◌, String, ◌==◌, not, [], ◌∷◌, ◌++◌, any, find_first, keep, length, ltb, if◌then◌else◌,
}
use vibls_assignment.Job.{Time}
use vibls_assignment.Store.Rows.{
  IdempotencyKey, Tables, Platform, no_rows, key_exists, missing_reference, Result, ok, err, M,
  statement, statement_tx,
}
use vibls_assignment.Store.Jobs.{of_option}

-- SELECT … FROM idempotency_keys WHERE hash = $1
unfoldable pub get_idempotency_key : String → M IdempotencyKey
get_idempotency_key hash =
    statement λ t. (of_option no_rows (find_first (λ k. k.hash == hash) t.keys), t)

-- INSERT … ON CONFLICT (hash) DO NOTHING; no row affected is ErrIdempotencyKeyExists.
unfoldable pub insert_key :
    Platform → String → String → String → Tables → Result (Unit {0}) × Tables
insert_key p hash job_id response t =
    if any (λ k. k.hash == hash) t.keys
    then (err key_exists, t)
    else (if any (λ r. r.id == job_id) t.jobs
        then (
          ok tt,
          record t {
            keys =
                t.keys
                ++ record {
                  hash = hash;
                  job_id = job_id;
                  response = p.jsonb response;
                  created_at = t.now;
                }
                  ∷ [];
          },
        )
        else (err missing_reference, t))

unfoldable pub create_idempotency_key_tx : Platform → String → String → String → M (Unit {0})
unfolding insert_key
create_idempotency_key_tx p hash job_id response = statement_tx (insert_key p hash job_id response)

-- DELETE … WHERE created_at < $1, where the cutoff is `now` - `age` on the caller's clock.
unfoldable pub delete_expired_idempotency_keys : Time → ℕ → M ℕ
delete_expired_idempotency_keys now age = statement λ t.
    let expired = λ (k : IdempotencyKey). ltb k.created_at (now - age) in
    (ok (length (keep expired t.keys)), record t { keys = keep (λ k. not (expired k)) t.keys })
