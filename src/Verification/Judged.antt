-- ===== src/Verification/Judged.antt =====
-- When the judge of internal/verification/aijudge.go gives a verdict.
use vibls_assignment.Common.{
  ℕ, String, ◌≡◌, refl, ap, ◌≢◌, ◌↔◌, inl, inr, true, Option, none, some, List, [], ◌∷◌, arith,
  eq_iff, eqb, Bool-cases, Option-cases,
}
use vibls_assignment.Common.Text.{cat}
use vibls_assignment.Verification.Judge.{
  AiVerdict, AiJudgeConfig, build_prompt, DeepseekMessage, HttpAnswer, no_answer, unread, response,
  Remote, Judged, verdict_in, first_choice, parse_answer, request_for, call_for, call_deep_seek,
  kept, evaluate,
}

module _ (r : Remote) (j : AiJudgeConfig) where
  -- An answer that holds a verdict.
  abbrev pub Holds : AiVerdict → HttpAnswer → Type 0
  Holds v a =
      (text : String) × (m : DeepseekMessage) × (more : List DeepseekMessage) × (a
        ≡ response 200 text)
      × (r.decode_choices text ≡ some (m ∷ more))
      × (r.decode_verdict m.content ≡ some v)

  verdict_in-inr : (o : Option AiVerdict) (v : AiVerdict) → verdict_in o ≡ inr v → o ≡ some v
  verdict_in-inr none v h = cc
  verdict_in-inr (some w) v h = cc

  first_choice-inr :
      (o : Option (List DeepseekMessage)) (v : AiVerdict)
      → first_choice r j o ≡ inr v
      → (m : DeepseekMessage) × (more : List DeepseekMessage) × (o ≡ some (m ∷ more))
        × (r.decode_verdict m.content ≡ some v)
  first_choice-inr none v h = cc
  first_choice-inr (some []) v h = cc
  first_choice-inr (some (m ∷ more)) v h =
      (m, more, refl, verdict_in-inr (r.decode_verdict m.content) v h)

  parse_answer-inr : (a : HttpAnswer) (v : AiVerdict) → parse_answer r j a ≡ inr v → Holds v a
  parse_answer-inr no_answer v h = cc
  parse_answer-inr unread v h = cc
  parse_answer-inr (response status text) v h = elim (Bool-cases (eqb status 200)) [
    | inl fine ↦
        let (m, more, chosen, holds) = first_choice-inr (r.decode_choices text) v (rw fine at h) in
        let same : status ≡ 200 = ground arith in
        (text, m, more, ap (λ (k : ℕ). response k text) same, chosen, holds)
    | inr other ↦ ground (arith, h, other)
  ]

  call_deep_seek-inr :
      (prompt : String) (v : AiVerdict)
      → call_deep_seek r j prompt ≡ inr v
      → (request : String) × (r.marshal (request_for r j prompt) ≡ some request)
        × (r.valid_url (cat j.base_url "/chat/completions") ≡ true)
        × Holds v (r.send (call_for r j request))
  unfolding call_deep_seek
  call_deep_seek-inr prompt v h = elim (Option-cases (r.marshal (request_for r j prompt))) [
    | inl failed ↦ ground (arith, h, failed)
    | inr (request, made) ↦ elim (Bool-cases (r.valid_url (cat j.base_url "/chat/completions"))) [
      | inl valid ↦ (
        request,
        made,
        valid,
        parse_answer-inr (r.send (call_for r j request)) v (ground (arith, h, made, valid)),
      )
      | inr invalid ↦ ground (arith, h, made, invalid)
    ]
  ]

  kept-some : (o : Judged) (v : AiVerdict) → kept r j o ≡ some v → o ≡ inr v
  kept-some (inl e) v h = cc
  kept-some (inr w) v h = cc

  -- The judge gives a verdict exactly if it has a key, the request can be made, the answer has the
  -- status 200 and a first choice, and its content is that verdict; all else counts as no verdict.
  pub evaluate-some_iff :
      (manifests : List (String × String)) (v : AiVerdict)
      → (evaluate r j manifests ≡ some v) ↔ (
          (j.api_key ≢ "")
          × (request : String) × (r.marshal (request_for r j (build_prompt manifests))
              ≡ some request)
          × (r.valid_url (cat j.base_url "/chat/completions") ≡ true)
          × Holds v (r.send (call_for r j request)))
  unfolding evaluate call_deep_seek
  evaluate-some_iff manifests v =
      let prompt = build_prompt manifests in
      (
        λ h.
            let inverted =
              call_deep_seek-inr prompt v (
                kept-some (call_deep_seek r j prompt) v (ground (arith, h, eq_iff j.api_key ""))) in
            (
              λ unset. ground (arith, h, eq_iff j.api_key ""),
              inverted.0,
              inverted.1,
              inverted.2,
              inverted.3,
            ),
        λ (key, request, made, valid, (text, m, more, sent, chosen, holds)).
            ground (arith, key, made, valid, sent, chosen, holds, eq_iff j.api_key ""),
      )
