-- ===== src/Store/Lock.antt =====
-- The statements of internal/models/db.go use the table of jobs as a lock for each target.
use mathlib.Core.List.{Memᴰ}
use mathlib.Core.Path.{subst}
use vibls_assignment.Common.{
  String, ◌≡◌, refl, sym, ap, inl, inr, true, Option, none, some, List, [], ◌∷◌, arith, ◌==◌,
  eq_iff, Bool-cases, find_first,
}
use vibls_assignment.Store.Rows.{JobRow, Tables, Platform, jobs_unique}
use vibls_assignment.Store.Jobs.{is_deployment_of, with_status}
use vibls_assignment.Store.Invariant.{Inv, Step, Reach, here, next, Step-Inv}
use vibls_assignment.Store.Active.{clashes-eq, find_first-Memᴰ, clashes_of_deployment}
use vibls_assignment.Store.Slot.{
  id_of, LockStep, unchanged, acquired, released, Changed, as_before, one_more, one_updated,
  Step-Changed, Memᴰ-append, Memᴰ-update, Memᴰ-update_back,
}

module _ (repo_url branch namespace : String) where
  -- The row that holds a target, and the lock: what GetActiveDeployment finds.
  abbrev pub holder : List JobRow → Option JobRow
  holder rows = find_first (is_deployment_of repo_url branch namespace) rows

  abbrev pub slot : Tables → Option String
  slot t = id_of (holder t.jobs)

  -- Two holders in one table are one.
  one_holder :
      (rows : List JobRow) {r s : JobRow}
      → jobs_unique rows ≡ true
      → Memᴰ r rows
      → Memᴰ s rows
      → is_deployment_of repo_url branch namespace r ≡ true
      → is_deployment_of repo_url branch namespace s ≡ true
      → r.id ≡ s.id
  one_holder rows {r} {s} unique m n hr hs =
      ap (λ (k : JobRow). k.id)
        (clashes-eq rows unique m n (clashes_of_deployment repo_url branch namespace r s hr hs))

  -- A row that holds the target before a statement and one that holds it after have one id.
  same_holder :
      (p : Platform) (t : Tables) (rows : List JobRow) {r s : JobRow}
      → Changed p t rows
      → jobs_unique t.jobs ≡ true
      → jobs_unique rows ≡ true
      → Memᴰ r t.jobs
      → Memᴰ s rows
      → is_deployment_of repo_url branch namespace r ≡ true
      → is_deployment_of repo_url branch namespace s ≡ true
      → r.id ≡ s.id
  same_holder p t rows (as_before e) u v m n hr hs =
      one_holder t.jobs u m (subst (Memᴰ _) e n) hr hs
  same_holder p t rows (one_more row e) u v m n hr hs =
      one_holder rows v (subst (Memᴰ _) (sym e) (Memᴰ-append t.jobs (row ∷ []) m)) n hr hs
  same_holder p t rows {r} {s} (one_updated id status stage message e) u v m n hr hs =
      let change = with_status status stage message t.now in
      elim (Bool-cases (r.id == id)) [
        | inr other ↦
            one_holder rows v
              (subst (Memᴰ r) (sym e) (Memᴰ-update id change (λ k. refl) t.jobs other m)) n hr hs
        | inl hit ↦ elim (Bool-cases (s.id == id)) [
          | inr other ↦
              one_holder t.jobs u m
                (Memᴰ-update_back id change (λ k. refl) t.jobs other (subst (Memᴰ s) e n)) hr hs
          | inl also ↦ ground (arith, eq_iff r.id id, eq_iff s.id id, hit, also)
        ]
      ]

  LockStep-holders :
      (o o' : Option JobRow)
      → ((r s : JobRow) → o ≡ some r → o' ≡ some s → r.id ≡ s.id)
      → LockStep (id_of o) (id_of o')
  LockStep-holders none none h = unchanged
  LockStep-holders none (some s) h = acquired s.id
  LockStep-holders (some r) none h = released r.id
  LockStep-holders (some r) (some s) h =
      subst (λ (i : String). LockStep (some r.id) (some i)) (h r s refl refl) unchanged

  Step-LockStep : (p : Platform) {t u : Tables} → Step p t u → Inv t → LockStep (slot t) (slot u)
  Step-LockStep p {t} {u} step v =
      let w = Step-Inv p step v in
      let test = is_deployment_of repo_url branch namespace in
      LockStep-holders (holder t.jobs) (holder u.jobs) λ r s before after.
        let (m, hr) = find_first-Memᴰ test t.jobs before in
        let (n, hs) = find_first-Memᴰ test u.jobs after in
        same_holder p t u.jobs (Step-Changed p step) v.unique w.unique m n hr hs

  Reach-keeps_Inv : (p : Platform) {t u : Tables} → Reach p t u → Inv t → Inv u
  Reach-keeps_Inv p here v = v
  Reach-keeps_Inv p (next r s) v = Step-Inv p s (Reach-keeps_Inv p r v)

  -- Whatever statements are made after one another from tables in which the unique indexes and
  -- the references hold, the next statement leaves the queued or running job of a target
  -- (repository, branch and namespace) as it is, or gives a free target its job, or gives the
  -- target back; no statement passes it from one job to another.
  pub Reach-LockStep :
      (p : Platform) {t u v : Tables}
      → Reach p t u
      → Inv t
      → Step p u v
      → LockStep (slot u) (slot v)
  Reach-LockStep p r inv step = Step-LockStep p step (Reach-keeps_Inv p r inv)

  -- A run of statements in which every single one treats the target as a lock.
  pub data Locking (p : Platform) (t : Tables) : Tables → Type 0 where
    start : Locking p t t
    onward :
        {u v : Tables} → Locking p t u → Step p u v → LockStep (slot u) (slot v) → Locking p t v

  pub Reach-Locking : (p : Platform) {t u : Tables} → Reach p t u → Inv t → Locking p t u
  Reach-Locking p here v = start
  Reach-Locking p (next r s) v = onward (Reach-Locking p r v) s (Reach-LockStep p r v s)
