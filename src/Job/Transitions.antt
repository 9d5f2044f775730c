-- ===== src/Job/Transitions.antt =====
-- The stage order of internal/models/job.go, against an independent numbering of the stages.
use vibls_assignment.Common.{
  ◌≡◌, ap, ◌∙◌, ◌↔◌, inl, inr, ◌==◌, eq_iff, eq_refl, true, false, some, List, [], ◌∷◌, arith, All,
  Bool-cases, Option-cases,
}
use vibls_assignment.Job.{
  PipelineStage, stage_cloning, stage_building, stage_pushing, stage_manifest_generating,
  stage_verifying, stage_applying, stage_health_checking, valid_transition, valid_transitions,
  next_stage,
}

-- The pipeline in its documented order.
abbrev pub pipeline : List PipelineStage
pipeline =
    stage_cloning ∷ stage_building ∷ stage_pushing ∷ stage_manifest_generating ∷ stage_verifying
    ∷ stage_applying ∷ stage_health_checking ∷ []

-- `next` stands directly behind `current` in a list.
pub data Follows (current next : PipelineStage) : List PipelineStage → Type 0 where
  here :
      {rest : List PipelineStage} {a b : PipelineStage}
      → a ≡ current
      → b ≡ next
      → Follows current next (a ∷ b ∷ rest)
  there :
      {a : PipelineStage} {rest : List PipelineStage}
      → Follows current next rest
      → Follows current next (a ∷ rest)

-- The neighbours of a list, as pairs: of the pipeline, they are the source's transition table.
abbrev links : List PipelineStage → List (PipelineStage × PipelineStage)
links [] = []
links (x ∷ []) = []
links (x ∷ y ∷ rest) = (x, y) ∷ links (y ∷ rest)

abbrev IsFresh : PipelineStage → List PipelineStage → Type 0
IsFresh x = All (λ y. (x == y) ≡ false)

abbrev IsDistinct : List PipelineStage → Type 0
IsDistinct [] = Unit
IsDistinct (x ∷ rest) = IsFresh x rest × IsDistinct rest

next_stage_sound :
    (current next : PipelineStage) (xs : List PipelineStage)
    → next_stage current (links xs) ≡ some next
    → Follows current next xs
next_stage_sound current next [] h = cc
next_stage_sound current next (x ∷ []) h = cc
next_stage_sound current next (x ∷ y ∷ rest) h = elim (Bool-cases (x == current)) [
  | inl same ↦ here ((eq_iff x current).0 same) (ground arith)
  | inr other ↦ there (next_stage_sound current next (y ∷ rest) (ground arith))
]

Follows-IsFresh :
    {current next : PipelineStage} {xs : List PipelineStage} (x : PipelineStage)
    → Follows current next xs
    → IsFresh x xs
    → (x == current) ≡ false
Follows-IsFresh x (here first second) (h, _) = rw (← first) h
Follows-IsFresh x (there more) (_, h) = Follows-IsFresh x more h

next_stage_complete :
    {current next : PipelineStage} {xs : List PipelineStage}
    → Follows current next xs
    → IsDistinct xs
    → next_stage current (links xs) ≡ some next
next_stage_complete {current} (here {a = a} first second) d =
    ground (arith, eq_iff a current, first, second)
next_stage_complete {current} (there {a = a} {rest = []} more) d = elim more [ ]
next_stage_complete {current} (there {a = a} {rest = x ∷ []} (there more)) d = elim more [ ]
next_stage_complete {current} (there {a = a} {rest = x ∷ y ∷ rest} more) (fresh, d) =
    rw (Follows-IsFresh a more fresh) (next_stage_complete more d)

-- A transition is valid exactly when the second stage is the direct successor of the first in the
-- order cloning, building, pushing, manifest generating, verifying, applying, health checking.
pub valid_transition_iff :
    (current next : PipelineStage)
    → (valid_transition current next ≡ true) ↔ Follows current next pipeline
unfolding valid_transition
valid_transition_iff current next = (to, from)
  where
    to : valid_transition current next ≡ true → Follows current next pipeline
    to h = elim (Option-cases (next_stage current valid_transitions)) [
      | inl missing ↦ cc
      | inr (expected, found) ↦
          next_stage_sound current next pipeline
            (found ∙ ap some ((eq_iff expected next).0 (rw (found) at h)))
    ]

    from : Follows current next pipeline → valid_transition current next ≡ true
    from h = rw (next_stage_complete h (ground arith)) (eq_refl next)
