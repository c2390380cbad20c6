-- ===== src/Examples/Completions.antt =====
-- A server that is busy once and then answers.
use factvault.Common.{
  ℕ, ◌≤◌, ◌<◌, ◌==◌, ◌≡◌, refl, false, none, some, [], ◌∷◌, Text, lit, text_eq, length, ok,
  if◌then◌else◌,
}
use factvault.Llm.{LlmServer, attempt_once, llm_extract}
use factvault.Llm
use factvault.Llm.Retries.{IsRefused, llm_extract-ok}
use factvault.Strings.{trim_space}
use factvault.Strings
use factvault.Utf8

abbrev server : LlmServer
server = record {
  is_done = λ attempt. false;
  respond = λ attempt. some (if attempt == 0 then 503 else 200, λ n. some (lit "body"));
  parse_choices = λ body. some (body ∷ []);
  parse_direct = λ content. some [];
  parse_wrapper = λ content. none;
}

extracted_now : llm_extract server 10 ≡ ok []
unfolding llm_extract Llm.attempts attempt_once Llm.is_retryable Llm.read_completion
    Llm.first_content Llm.parse_statement_proposals trim_space Strings.trim_left Strings.trim_right
    Strings.keep_before Strings.is_space Strings.decode_rune Utf8.runes Utf8.split Utf8.rune_width
    text_eq
extracted_now = refl

llm_extract-ok_example :
    (last : ℕ) × (status : ℕ) × (body : Text) × (last < 3)
    × (attempt_once server 10 last ≡ ok (status, body))
    × (200 ≤ status)
    × (status < 300)
    × (length body ≤ 10)
    × ((k : ℕ) → k < last → IsRefused server 10 k)
llm_extract-ok_example = llm_extract-ok server 10 [] extracted_now
