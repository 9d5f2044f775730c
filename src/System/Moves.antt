-- ===== src/System/Moves.antt =====
-- What the operations of internal/models/db.go do to the tables when others act between them: the
-- tables move by statements of the repository only.
use vibls_assignment.Common.{String, ◌≡◌, refl, ◌∙◌, inl, inr, true, List, [], ◌∷◌, Bool-cases, All}
use vibls_assignment.Store.Rows.{
  Tables, Platform, Result, ok, err, Turn, World, first_turn, later_turns, M, after, statement,
  statement_tx, ◌>>=◌,
}
use vibls_assignment.Store.Jobs.{with_status}
use vibls_assignment.Store.Invariant.{
  has_job, Inv, Step, Reach, here, next, has_job-append, Step-Inv,
}
use vibls_assignment.Store.Lookup.{any-update}
use vibls_assignment.Store.Slot.{Changed, as_before, one_more, one_updated, Step-Changed}

pub Reach-trans : {p : Platform} {t u v : Tables} → Reach p t u → Reach p u v → Reach p t v
Reach-trans r here = r
Reach-trans r (next q s) = next (Reach-trans r q) s

abbrev pub one_step : {p : Platform} {t u : Tables} → Step p t u → Reach p t u
one_step s = next here s

-- A job that was inserted is never removed.
pub Reach-has_job :
    {p : Platform} {t u : Tables} (id : String)
    → Reach p t u
    → has_job t.jobs id ≡ true
    → has_job u.jobs id ≡ true
Reach-has_job id here h = h
Reach-has_job {p} id (next {u} {v} r s) h = kept u v (Step-Changed p s) (Reach-has_job id r h)
  where
    kept : (t u : Tables) → Changed p t u.jobs → has_job t.jobs id ≡ true → has_job u.jobs id ≡ true
    kept t u (as_before e) h = rw e h
    kept t u (one_more row e) h = rw e (has_job-append t.jobs (row ∷ []) id h)
    kept t u (one_updated j status stage message e) h =
        rw e (any-update j id (with_status status stage message t.now) t.jobs (λ r. refl) ∙ h)

-- The invariant goes on from any tables that have it.
pub Reach-keeps_Inv : (p : Platform) {t u : Tables} → Reach p t u → Inv t → Inv u
Reach-keeps_Inv p here v = v
Reach-keeps_Inv p (next r s) v = Step-Inv p s (Reach-keeps_Inv p r v)

module _ (p : Platform) where
  -- Others make statements of the repository only, as many as they like.
  abbrev pub Tame : List Turn → Type 0
  Tame turns = All (λ turn. (t : Tables) → Reach p t (turn.others t)) turns

  -- From one world to a later one.
  pub record Moves (w w' : World) : Type 0 where
    pub reach : Reach p w.tables w'.tables
    pub tame : Tame w'.turns

  abbrev pub Keeps : {A : Type 0} → (World → A × World) → Type 0
  Keeps m = (w : World) → Tame w.turns → Moves w (m w).1

  pub Moves-refl : (w : World) → Tame w.turns → Moves w w
  Moves-refl w h = record { reach = here; tame = h }

  pub Moves-trans : {u v w : World} → Moves u v → Moves v w → Moves u w
  Moves-trans m n = record { reach = Reach-trans m.reach n.reach; tame = n.tame }

  pub later_turns-Tame : (turns : List Turn) → Tame turns → Tame (later_turns turns)
  later_turns-Tame [] h = tt
  later_turns-Tame (turn ∷ turns) h = h.1

  first_turn-Tame :
      (turns : List Turn) (t : Tables) → Tame turns → Reach p t ((first_turn turns).others t)
  first_turn-Tame [] t h = here
  first_turn-Tame (turn ∷ turns) t h = h.0 t

  pub after-Moves : (w : World) → Tame w.turns → Moves w (after w)
  after-Moves w h = record {
    reach = first_turn-Tame w.turns w.tables h;
    tame = later_turns-Tame w.turns h;
  }

  -- A statement that makes a step of the repository, or only reads.
  pub Keeps-statement :
      {A : Type 0} (run : Tables → Result A × Tables)
      → ((t : Tables) → Reach p t (run t).1)
      → Keeps (statement run)
  Keeps-statement run steps w h =
      let m = after-Moves w h in
      elim (Bool-cases (first_turn w.turns).fails) [
        | inl failed ↦ rw failed m
        | inr works ↦
            rw works
              (record { reach = Reach-trans m.reach (steps (after w).tables); tame = m.tame })
      ]

  -- The same inside a transaction.
  pub Keeps-statement_tx :
      {A : Type 0} (run : Tables → Result A × Tables)
      → ((t : Tables) → Reach p t (run t).1)
      → Keeps (statement_tx run)
  Keeps-statement_tx run steps w h = elim (Bool-cases (first_turn w.turns).fails) [
    | inl failed ↦ rw failed (record { reach = here; tame = later_turns-Tame w.turns h })
    | inr works ↦ rw works (record { reach = steps w.tables; tame = later_turns-Tame w.turns h })
  ]

  pub Keeps-bind :
      {A B : Type 0} (m : M A) (f : A → M B) → Keeps m → ((a : A) → Keeps (f a)) → Keeps (◌>>=◌ m f)
  Keeps-bind {A = A} {B = B} m f km kf w h = go (m w).0 (km w h)
    where
      go :
          (r : Result A)
          → Moves w (m w).1
          → Moves w
              (elim r as (λ r. Result B × World) [
                | err e ↦ (err e, (m w).1)
                | ok a ↦ f a (m w).1
              ]).1
      go (ok a) first = Moves-trans first (kf a (m w).1 first.tame)
      go (err e) first = first
