-- ===== src/Research.antt =====
-- internal/research/research.go: the queries for an entity, and the collector that searches them.
-- A slice out of range is the failure `panicked`.
pub mod Distinct
pub mod Collector
use factvault.Common.{
  ℕ, zero, suc, ◌+◌, ◌-◌, ◌*◌, Bool, true, false, not, ◌&&◌, ◌||◌, Option, none, some, List, [],
  ◌∷◌, ◌++◌, Text, lit, text_eq, ltb, leb, ◌==◌, length, take, drop, ℤ, pos, negsuc, ltb_ℤ, leb_ℤ,
  if◌then◌else◌, Result, ok, err, ◌>>=◌,
}
use factvault.Strings.{Unicode, to_lower, fields, join}

pub data Failure : Type 0 where
  request_failed bad_status bad_response empty_choices bad_perspectives bad_queries panicked :
      Failure

pub record SeedEntity : Type 0 where
  pub label : Text
  pub entity_type : Text

pub record Caps : Type 0 where
  pub perspectives : ℤ
  pub questions_per_perspective : ℤ

pub record LlmConfig : Type 0 where
  pub base_url : Text
  pub api_key : Text
  pub model : Text

-- The request of `chatComplete`: the address, the header `Authorization`, and the payload.
pub record ChatRequest : Type 0 where
  pub address : Text
  authorization : Option Text
  pub model : Text
  system_prompt : Text
  user_prompt : Text

pub record PerspectiveItem : Type 0 where
  pub perspective : Text
  pub queries : List Text

-- HTTP, `encoding/json` and the verbs of `fmt`: an answer has a status, and a body if it can be read.
pub record Llm : Type 0 where
  pub respond : ChatRequest → Option (ℕ × Option Text)
  pub parse_choices : Text → Option (List Text)
  pub parse_perspectives : Text → Option (List Text)
  pub parse_items : Text → Option (List PerspectiveItem)
  pub quote : Text → Text
  pub decimal : ℤ → Text

-- `strings.TrimRight(s, "/")`.
unfoldable pub trim_slashes : Text → Text
trim_slashes [] = []
trim_slashes (b ∷ bs) =
    let rest = trim_slashes bs in
    elim rest [ [] ↦ if b == 0x2F then [] else b ∷ [] | c ∷ cs ↦ b ∷ c ∷ cs ]

unfoldable pub is_success : ℕ → Bool
is_success status = not (ltb status 200 || ltb 299 status)

unfoldable pub first_choice : List Text → Result Failure Text
first_choice [] = err empty_choices
first_choice (content ∷ contents) = ok content

unfoldable pub chat_complete : Llm → LlmConfig → Text → Text → Result Failure Text
chat_complete llm c system_prompt user_prompt =
    elim (llm.respond (record {
      address = trim_slashes c.base_url ++ lit "/chat/completions";
      authorization = if text_eq c.api_key [] then none else some (lit "Bearer " ++ c.api_key);
      model = c.model;
      system_prompt = system_prompt;
      user_prompt = user_prompt;
    })) [
      | none ↦ err request_failed
      | some (status, answer) ↦ elim answer [
        | none ↦ err request_failed
        | some body ↦
            if not (is_success status) then err bad_status else elim (llm.parse_choices body) [
              | none ↦ err bad_response
              | some contents ↦ first_choice contents
            ]
      ]
    ]

-- `if len(xs) > n { xs = xs[:n] }`.
unfoldable pub capped : {A : Type 0} → ℤ → List A → Result Failure (List A)
capped (pos n) xs = ok (if ltb n (length xs) then take n xs else xs)
capped (negsuc n) xs = err panicked

abbrev perspectives_system : Text
perspectives_system =
    lit "You are a research strategist. Given a seed entity, return a JSON object with a "
    ++ (lit "\"perspectives\" array of distinct research angles. Each perspective is a short "
        ++ lit "phrase (5-10 words). Return ONLY valid JSON.")

perspectives_prompt : Llm → SeedEntity → ℤ → List Text → Text
perspectives_prompt llm entity max_count hints =
    lit "Entity: "
    ++ (llm.quote entity.label
        ++ (lit " (type: "
            ++ (entity.entity_type
                ++ (lit ")\nGenerate up to "
                    ++ (llm.decimal max_count
                        ++ (lit " distinct research perspectives.\n" ++ (elim hints [
                          | [] ↦ []
                          | h ∷ hs ↦
                              lit "Already-covered facets (steer AWAY from these): "
                              ++ (join (h ∷ hs) (lit ", ") ++ lit "\n")
                        ])))))))

unfoldable pub generate_perspectives :
    Llm → LlmConfig → SeedEntity → ℤ → List Text → Result Failure (List Text)
unfolding perspectives_prompt
generate_perspectives llm c entity max_count hints =
    chat_complete llm c perspectives_system (perspectives_prompt llm entity max_count hints)
    >>= λ content. elim (llm.parse_perspectives content) [
      | none ↦ err bad_perspectives
      | some perspectives ↦ capped max_count perspectives
    ]

-- The loop over the items of the second answer.
unfoldable pub item_queries : ℤ → List PerspectiveItem → Result Failure (List Text)
item_queries max_count [] = ok []
item_queries max_count (item ∷ items) =
    let rest = item_queries max_count items in
    capped max_count item.queries >>= λ queries. rest >>= λ more. ok (queries ++ more)

numbered : Llm → ℕ → List Text → Text
numbered llm i [] = []
numbered llm i (p ∷ ps) =
    lit "  "
    ++ (llm.decimal (pos (i + 1)) ++ (lit ". " ++ (p ++ (lit "\n" ++ numbered llm (i + 1) ps))))

abbrev queries_system : Text
queries_system =
    lit "You are a research strategist. Given an entity and research perspectives, return a "
    ++ (lit "JSON object with an \"items\" array. Each element has \"perspective\" (string) and "
        ++ lit "\"queries\" (array of web search query strings). Return ONLY valid JSON.")

queries_prompt : Llm → SeedEntity → ℤ → List Text → Text
queries_prompt llm entity max_count perspectives =
    lit "Entity: "
    ++ (llm.quote entity.label
        ++ (lit "\nFor each perspective below, generate up to "
            ++ (llm.decimal max_count
                ++ (lit " web search queries.\nPerspectives:\n" ++ numbered llm 0 perspectives))))

unfoldable pub generate_queries_for_perspectives :
    Llm → LlmConfig → SeedEntity → List Text → ℤ → Result Failure (List Text)
unfolding queries_prompt numbered
generate_queries_for_perspectives llm c entity [] max_count = ok []
generate_queries_for_perspectives llm c entity (p ∷ ps) max_count =
    chat_complete llm c queries_system (queries_prompt llm entity max_count (p ∷ ps)) >>= λ content.
    elim (llm.parse_items content) [
      | none ↦ err bad_queries
      | some items ↦ item_queries max_count items
    ]

abbrev stopwords : List Text
stopwords =
    lit "a"
    ∷ lit "an"
    ∷ lit "the"
    ∷ lit "of"
    ∷ lit "in"
    ∷ lit "on"
    ∷ lit "at"
    ∷ lit "to"
    ∷ lit "for"
    ∷ lit "and"
    ∷ lit "or"
    ∷ lit "but"
    ∷ lit "is"
    ∷ lit "are"
    ∷ lit "was"
    ∷ lit "were"
    ∷ lit "be"
    ∷ lit "been"
    ∷ lit "by"
    ∷ lit "with"
    ∷ lit "from"
    ∷ lit "as"
    ∷ lit "into"
    ∷ lit "that"
    ∷ lit "this"
    ∷ lit "it"
    ∷ lit "its"
    ∷ lit "not"
    ∷ lit "do"
    ∷ lit "does"
    ∷ lit "did"
    ∷ lit "has"
    ∷ lit "have"
    ∷ lit "had"
    ∷ lit "will"
    ∷ lit "would"
    ∷ lit "can"
    ∷ lit "could"
    ∷ []

unfoldable pub has_text : Text → List Text → Bool
has_text t [] = false
has_text t (s ∷ ss) = text_eq s t || has_text t ss

unfoldable pub without_stopwords : List Text → List Text
without_stopwords [] = []
without_stopwords (p ∷ ps) =
    let rest = without_stopwords ps in if has_text p stopwords then rest else p ∷ rest

unfoldable pub normalize_query : Unicode → Text → Text
normalize_query u q = join (without_stopwords (fields (to_lower u q))) (lit " ")

-- `dedup`, from the keys seen so far.
unfoldable pub dedup_from : Unicode → List Text → List Text → List Text
dedup_from u seen [] = []
dedup_from u seen (q ∷ qs) =
    let known = has_text (normalize_query u q) seen in
    let rest = dedup_from u (if known then seen else normalize_query u q ∷ seen) qs in
    if known then rest else q ∷ rest

unfoldable pub dedup : Unicode → List Text → List Text
dedup u raw = dedup_from u [] raw

unfoldable pub generate_queries :
    Unicode → Llm → LlmConfig → SeedEntity → Caps → List Text → Result Failure (List Text)
generate_queries u llm c entity caps hints =
    generate_perspectives llm c entity caps.perspectives hints >>= λ perspectives.
    generate_queries_for_perspectives llm c entity perspectives caps.questions_per_perspective
    >>= λ raw. ok (dedup u raw)
