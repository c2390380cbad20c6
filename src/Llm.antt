-- ===== src/Llm.antt =====
-- internal/extractors/llm.go: `LLMClient.Extract`, with its retries.
pub mod Provider
pub mod Retries
use factvault.Common.{
  ℕ, zero, suc, ◌+◌, ◌*◌, Bool, true, false, not, ◌&&◌, ◌||◌, Option, none, some, List, [], ◌∷◌,
  ◌++◌, Text, lit, text_eq, ltb, leb, ◌==◌, length, ℤ, pos, negsuc, if◌then◌else◌, Result, ok, err,
  ◌>>=◌,
}
use factvault.Strings.{trim_space}
use factvault.Extract.{StatementProposal}

pub data Error : Type 0 where
  cancelled request_failed read_failed body_too_large bad_status bad_response : Error
  missing_choices missing_content unparsable : Error

-- The server and the clock: whether the context is done in the delay before an attempt, and what the
-- attempt is answered, of whose body at most the bytes asked for are read. JSON is a parameter; a
-- wrapper has the lists `proposals` and `statements`.
pub record LlmServer : Type 0 where
  pub is_done : ℕ → Bool
  pub respond : ℕ → Option (ℕ × (ℕ → Option Text))
  pub parse_choices : Text → Option (List Text)
  pub parse_direct : Text → Option (List StatementProposal)
  pub parse_wrapper : Text → Option (List StatementProposal × List StatementProposal)

abbrev default_max_llm_body_bytes : ℕ
default_max_llm_body_bytes = 4 * 1024 * 1024

-- `maxLLMBodyBytes`, from what the setting resolves to.
max_llm_body_bytes : Option ℤ → ℕ
max_llm_body_bytes none = default_max_llm_body_bytes
max_llm_body_bytes (some (pos n)) = if ltb 0 n then n else default_max_llm_body_bytes
max_llm_body_bytes (some (negsuc n)) = default_max_llm_body_bytes

unfoldable pub is_retryable : ℕ → Bool
is_retryable status = status == 429 || leb 500 status

module _ (s : LlmServer) (max_body_bytes : ℕ) where
  -- One round of the loop: the delay, which the first attempt has not, and the request.
  unfoldable pub attempt_once : ℕ → Result Error (ℕ × Text)
  attempt_once attempt =
      if ltb 0 attempt && s.is_done attempt then err cancelled else elim (s.respond attempt) [
        | none ↦ err request_failed
        | some (status, read) ↦ elim (read (max_body_bytes + 1)) [
          | none ↦ err read_failed
          | some body ↦ ok (status, body)
        ]
      ]

  -- The rounds from one attempt on, of which so many more may follow; and the attempt that is
  -- answered.
  unfoldable pub attempts : ℕ → ℕ → Result Error (ℕ × Text × ℕ)
  attempts zero attempt = attempt_once attempt >>= λ a. ok (a.0, a.1, attempt)
  attempts (suc more) attempt = attempt_once attempt >>= λ a. elim (is_retryable a.0) [
    | true ↦ attempts more (suc attempt)
    | false ↦ ok (a.0, a.1, attempt)
  ]

  unfoldable pub parse_statement_proposals : Text → Result Error (List StatementProposal)
  parse_statement_proposals content = elim (s.parse_direct content) [
    | some direct ↦ ok direct
    | none ↦ elim (s.parse_wrapper content) [
      | none ↦ err unparsable
      | some (proposals, statements) ↦ elim proposals [ [] ↦ ok statements | p ∷ ps ↦ ok (p ∷ ps) ]
    ]
  ]

  unfoldable pub first_content : List Text → Result Error (List StatementProposal)
  first_content [] = err missing_choices
  first_content (content ∷ contents) =
      if text_eq (trim_space content) []
      then err missing_content
      else parse_statement_proposals (trim_space content)

  -- What is done with the last answer.
  unfoldable pub read_completion : ℕ → Text → Result Error (List StatementProposal)
  read_completion status body =
      if ltb max_body_bytes (length body)
      then err body_too_large
      else if ltb status 200 || ltb 299 status
      then err bad_status
      else elim (s.parse_choices body) [
        | none ↦ err bad_response
        | some contents ↦ first_content contents
      ]

  -- `Extract`: three attempts at most.
  unfoldable pub llm_extract : Result Error (List StatementProposal)
  llm_extract = attempts 2 0 >>= λ a. read_completion a.0 a.1
