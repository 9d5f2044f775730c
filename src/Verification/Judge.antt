-- ===== src/Verification/Judge.antt =====
-- internal/verification/aijudge.go: the judgement of manifests by a remote model. The HTTP client
-- and encoding/json are parameters. Go ranges over the map of manifests in any order; here it is
-- a list.
use vibls_assignment.Common.{
  ℕ, String, ◌⊎◌, inl, inr, Bool, Option, none, some, List, [], ◌∷◌, ◌==◌, eqb, if◌then◌else◌,
}
use vibls_assignment.Common.Text.{cat}
use vibls_assignment.Job.{ℤ}

pub record AiVerdict : Type 0 where
  pub passed : Bool
  pub score : ℤ
  pub reasoning : String
  pub violations : List String

pub record AiJudgeConfig : Type 0 where
  pub api_key : String
  pub model : String
  pub base_url : String
  pub timeout_seconds : ℕ

abbrev default_text : String → String → String
default_text s fallback = if s == "" then fallback else s

-- NewAIJudge; `env_key` is the environment's DEEPSEEK_API_KEY.
unfoldable pub new_ai_judge : (env_key : String) → AiJudgeConfig → AiJudgeConfig
new_ai_judge env_key cfg = record {
  api_key = default_text cfg.api_key env_key;
  model = default_text cfg.model "deepseek-chat";
  base_url = default_text cfg.base_url "https://api.deepseek.com/v1";
  timeout_seconds = if eqb cfg.timeout_seconds 0 then 30 else cfg.timeout_seconds;
}

abbrev manifest_part : (String × String) → String
manifest_part (name, content) = cat "--- " (cat name (cat " ---\n" (cat content "\n")))

abbrev manifest_parts : List (String × String) → String
manifest_parts [] = ""
manifest_parts (m ∷ ms) = cat (manifest_part m) (manifest_parts ms)

abbrev instructions : String
instructions =
    cat
      "You are a Kubernetes expert. Review the following manifests for security, reliability, and best practices.\n"
      (cat "Respond with a JSON object containing:\n" (
        cat "- \"passed\": boolean\n" (
          cat "- \"score\": integer 0-100\n" (
            cat "- \"reasoning\": string explaining key findings\n" (
              cat "- \"violations\": array of strings listing specific issues\n\n"
                "Manifests:\n\n")))))

unfoldable pub build_prompt : List (String × String) → String
build_prompt manifests = cat instructions (manifest_parts manifests)

pub record DeepseekMessage : Type 0 where
  pub role : String
  pub content : String

pub record DeepseekRequest : Type 0 where
  pub model : String
  pub messages : List DeepseekMessage

-- The request that is sent: the URL, the headers' values and the body.
pub record HttpCall : Type 0 where
  pub url : String
  pub authorization : String
  pub body : String

-- What the call gives: an error of the client, or of reading the body, or the status and the body.
pub data HttpAnswer : Type 0 where
  no_answer : HttpAnswer
  unread : HttpAnswer
  response : (status : ℕ) (body : String) → HttpAnswer

pub record Remote : Type 0 where
  pub marshal : DeepseekRequest → Option String
  pub valid_url : String → Bool  -- http.NewRequestWithContext accepts it
  pub send : HttpCall → HttpAnswer
  pub decode_choices : String → Option (List DeepseekMessage)
  pub decode_verdict : String → Option AiVerdict

pub data JudgeError : Type 0 where
  marshal_failed bad_request call_failed read_failed : JudgeError
  bad_status : ℕ → String → JudgeError
  parse_failed empty_choices bad_verdict : JudgeError

abbrev pub Judged : Type 0
Judged = JudgeError ⊎ AiVerdict

abbrev pub verdict_in : Option AiVerdict → Judged
verdict_in none = inl bad_verdict
verdict_in (some v) = inr v

module _ (r : Remote) (j : AiJudgeConfig) where
  abbrev pub first_choice : Option (List DeepseekMessage) → Judged
  first_choice none = inl parse_failed
  first_choice (some []) = inl empty_choices
  first_choice (some (m ∷ more)) = verdict_in (r.decode_verdict m.content)

  abbrev pub parse_answer : HttpAnswer → Judged
  parse_answer no_answer = inl call_failed
  parse_answer unread = inl read_failed
  parse_answer (response status body) =
      if eqb status 200 then first_choice (r.decode_choices body) else inl (bad_status status body)

  abbrev pub request_for : String → DeepseekRequest
  request_for prompt = record {
    model = j.model;
    messages =
        record {
          role = "system";
          content = "You are a Kubernetes manifest reviewer. Always respond with valid JSON.";
        }
        ∷ record { role = "user"; content = prompt }
        ∷ [];
  }

  abbrev pub call_for : String → HttpCall
  call_for body = record {
    url = cat j.base_url "/chat/completions";
    authorization = cat "Bearer " j.api_key;
    body = body;
  }

  unfoldable pub call_deep_seek : String → Judged
  call_deep_seek prompt = elim (r.marshal (request_for prompt)) [
    | none ↦ inl marshal_failed
    | some body ↦
        if r.valid_url (cat j.base_url "/chat/completions")
        then parse_answer (r.send (call_for body))
        else inl bad_request
  ]

  abbrev pub kept : Judged → Option AiVerdict
  kept (inl e) = none
  kept (inr v) = some v

  -- Any error counts as no verdict.
  unfoldable pub evaluate : List (String × String) → Option AiVerdict
  evaluate manifests =
      if j.api_key == "" then none else kept (call_deep_seek (build_prompt manifests))
