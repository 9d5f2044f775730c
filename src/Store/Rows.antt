-- ===== src/Store/Rows.antt =====
-- Tables, the results of statements, and the environment. The columns are those of
-- internal/migrations/files/000001_initial.up.sql and 000002_idempotency.up.sql; a nullable column
-- is an `Option`, and a JSONB column holds the text of its value.
use vibls_assignment.Common.{
  refl, inr, inl, ◌⊎◌, arith, ◌≡◌, ℕ, String, ◌==◌, Bool, true, false, not, ◌&&◌, ◌||◌, Option,
  List, [], ◌∷◌, any, if◌then◌else◌,
}
use vibls_assignment.Job.{JobStatus, PipelineStage, ResourceOverrides, Time}

pub record JobRow : Type 0 where
  pub id : String
  pub repo_url : String
  pub branch : String
  pub build_context : String
  pub dockerfile_path : String
  pub target_namespace : String
  pub status : JobStatus
  pub current_stage : Option PipelineStage
  pub resource_overrides : Option String
  pub stage_timestamps : Option String
  pub error_message : Option String
  pub created_at : Time
  pub updated_at : Time

pub record EventRow : Type 0 where
  pub id : String
  pub job_id : String
  pub from_stage : Option PipelineStage
  pub to_stage : Option PipelineStage
  pub status : JobStatus
  pub message : Option String
  pub metadata : Option String
  pub created_at : Time

-- `models.IdempotencyKey` is this row.
pub record IdempotencyKey : Type 0 where
  pub hash : String
  pub job_id : String
  pub response : String
  pub created_at : Time

-- `serial` counts the identifiers that gen_random_uuid() has given; `now` is the database's clock.
pub record Tables : Type 0 where
  pub jobs : List JobRow
  pub events : List EventRow
  pub keys : List IdempotencyKey
  pub serial : ℕ
  pub now : Time

-- What the code takes from PostgreSQL and encoding/json.
pub record Platform : Type 0 where
  pub uuid : ℕ → String  -- the n-th identifier of gen_random_uuid()
  pub is_uuid : String → Bool  -- the texts that a UUID parameter accepts
  -- of two rows of one instant, whether ORDER BY gives the first one first
  pub ties : JobRow → JobRow → Bool
  pub jsonb : String → String  -- the text that a JSONB column gives back for a stored text
  pub marshal_overrides : ResourceOverrides → Option String
  pub unmarshal_overrides : String → Option ResourceOverrides
  pub marshal_timestamps : List (PipelineStage × Time) → Option String
  pub unmarshal_timestamps : String → Option (List (PipelineStage × Time))

pub data DbError : Type 0 where
  no_rows key_exists unavailable unique_violation missing_reference bad_uuid bad_json null_column :
      DbError

pub data Result {ℓ} (A : Type ℓ) : Type ℓ where
  ok : A → Result A
  err : DbError → Result A

-- One turn of the environment: what others commit before the next statement, and whether that
-- statement fails (a lost connection, a deadline).
pub record Turn : Type 0 where
  pub others : Tables → Tables
  pub fails : Bool

pub record World : Type 0 where
  pub tables : Tables
  pub turns : List Turn

abbrev pub quiet : Turn
quiet = record { others = λ t. t; fails = false }

abbrev pub first_turn : List Turn → Turn
first_turn [] = quiet
first_turn (t ∷ ts) = t

abbrev pub later_turns : List Turn → List Turn
later_turns [] = []
later_turns (t ∷ ts) = ts

abbrev pub M : Type 0 → Type 0
M A = World → Result A × World

abbrev pub after : World → World
after w = record { tables = (first_turn w.turns).others w.tables; turns = later_turns w.turns }

-- One statement on the connection pool, in its own transaction.
abbrev pub statement : {A : Type 0} → (Tables → Result A × Tables) → M A
statement run w =
    if (first_turn w.turns).fails
    then (err unavailable, after w)
    else let (r, t) = run (after w).tables in (r, record (after w) { tables = t })

-- A statement inside a transaction that is open: the rows that it locks keep others out until the
-- transaction ends, so what they commit meanwhile is counted before its begin or after its end.
abbrev pub statement_tx : {A : Type 0} → (Tables → Result A × Tables) → M A
statement_tx run w =
    if (first_turn w.turns).fails
    then (err unavailable, record w { turns = later_turns w.turns })
    else let (r, t) = run w.tables in (r, record { tables = t; turns = later_turns w.turns })

infixl 5 ◌>>=◌ ◌>>◌
abbrev pub ◌>>=◌ : {A B : Type 0} → M A → (A → M B) → M B
◌>>=◌ m f w = let (r, w') = m w in elim r [ err e ↦ (err e, w') | ok a ↦ f a w' ]

abbrev pub ◌>>◌ : {B : Type 0} → M (Unit {0}) → M B → M B
m >> k = m >>= λ _. k

abbrev pub return : {A : Type 0} → A → M A
return a w = (ok a, w)

abbrev pub is_active : JobStatus → Bool
is_active s = s == "QUEUED" || s == "RUNNING"

-- The three columns of the index idx_jobs_one_active_deploy.
abbrev pub same_target : JobRow → JobRow → Bool
same_target r s =
    r.repo_url == s.repo_url && r.branch == s.branch && r.target_namespace == s.target_namespace

abbrev pub clashes : JobRow → JobRow → Bool
clashes r s = r.id == s.id || is_active r.status && is_active s.status && same_target r s

-- PRIMARY KEY (id), and UNIQUE (repo_url, branch, target_namespace) over the active rows.
unfoldable pub jobs_unique : List JobRow → Bool
jobs_unique [] = true
jobs_unique (r ∷ rs) = not (any (clashes r) rs) && jobs_unique rs

-- A write to the table `jobs` is refused as a whole if it breaks a unique index.
abbrev pub commit_jobs : {A : Type 0} → A → List JobRow → Tables → Result A × Tables
commit_jobs a rows t =
    if jobs_unique rows then (ok a, record t { jobs = rows }) else (err unique_violation, t)

-- A world in which nobody else acts and nothing fails.
abbrev pub calm : Tables → World
calm t = record { tables = t; turns = [] }

pub Result-cases {ℓ} :
    {A : Type ℓ} (r : Result A) → ((a : A) × (r ≡ ok a)) ⊎ ((e : DbError) × (r ≡ err e))
Result-cases (ok a) = inl (a, refl)
Result-cases (err e) = inr (e, refl)

-- Inversion of a bind and of a statement that succeed.
pub >>=-eq-ok :
    {A B : Type 0} (m : M A) (f : A → M B) (w : World) {b : B}
    → (◌>>=◌ m f w).0 ≡ ok b
    → (a : A) × ((m w).0 ≡ ok a) × ((f a (m w).1).0 ≡ ok b)
>>=-eq-ok m f w h = elim (Result-cases (m w).0) [
  | inl (a, e) ↦ (a, e, ground (arith, e))
  | inr (x, e) ↦ ground (arith, e)
]

pub statement-eq-ok :
    {A : Type 0} (run : Tables → Result A × Tables) (w : World) {a : A}
    → (statement run w).0 ≡ ok a
    → (run (after w).tables).0 ≡ ok a
statement-eq-ok run w h = ground arith
