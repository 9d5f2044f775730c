-- ===== src/Verification/Bounds.antt =====
-- What a passed checkResourceBounds of internal/verification/heuristic.go guarantees.
use vibls_assignment.Common.{◌≡◌, refl, ◌↔◌, true, false, List, [], ◌∷◌, ◌++◌, arith, All}
use vibls_assignment.Common.Text.{Bytes}
use vibls_assignment.Verification.Yaml.{Answer, answer, refusal, split_yaml_documents}
use vibls_assignment.Verification.Quantities.{Floats, parse_cpu, parse_memory}
use vibls_assignment.Verification.Resources.{
  ResourceContainer, ResourceDoc, exceeds, concat_map, is_workload,
}

-- Neither request is known to be larger than its limit.
abbrev pub Within : Floats → ResourceContainer → Type 0
Within fl c =
    (exceeds (parse_cpu fl) c.requests.cpu c.limits.cpu ≡ false)
    × (exceeds (parse_memory fl) c.requests.memory c.limits.memory ≡ false)

-- A document that cannot be decoded, and one of another kind, says nothing about resources.
abbrev pub DocWithin : Floats → Answer ResourceDoc → Type 0
DocWithin fl (refusal e) = Unit
DocWithin fl (answer d) = is_workload d ≡ true → All (Within fl) d.containers

-- A file that cannot be read is a failure.
abbrev pub FileWithin : Floats → (Bytes → Answer ResourceDoc) → Answer Bytes → Type 0
FileWithin fl decode (refusal e) = ⊥
FileWithin fl decode (answer text) = All (λ d. DocWithin fl (decode d)) (split_yaml_documents text)

pub append-none : {A : Type 0} → (s t : List A) → (s ++ t ≡ []) ↔ ((s ≡ []) × (t ≡ []))
append-none [] t = ground arith
append-none (a ∷ s) t = ground arith

pub concat_map-none :
    {A : Type 0}
    → (f : A → List Bytes) (P : A → Type 0) → ((a : A) → (f a ≡ []) ↔ P a)
    → (xs : List A) → (concat_map f xs ≡ []) ↔ All P xs
concat_map-none f P same [] = (λ h. tt, λ h. refl)
concat_map-none f P same (a ∷ xs) =
    let rest = concat_map-none f P same xs in
    let split = append-none (f a) (concat_map f xs) in
    (
      λ h. ((same a).0 (split.0 h).0, rest.0 (split.0 h).1),
      λ (p, ps). split.1 ((same a).1 p, rest.1 ps),
    )
