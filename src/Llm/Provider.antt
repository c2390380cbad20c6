-- ===== src/Llm/Provider.antt =====
-- internal/workers/llm_config.go: the client that the settings ask for.
use factvault.Common.{
  Bool, true, false, not, ◌||◌, Option, none, some, [], Text, lit, text_eq, if◌then◌else◌, Result,
  ok, err, ◌≡◌, Bool-cases, inl, inr, subst, sym, refl, text_eq_iff, arith,
}
use factvault.Strings.{Unicode, trim_space, to_lower}

record LlmRuntimeConfig : Type 0 where
  provider : Text
  model : Text
  base_url : Text
  api_key : Text

record LlmClient : Type 0 where
  base_url : Text
  api_key : Text
  model : Text

data Error : Type 0 where
  model_required api_key_required not_supported unsupported : Text → Error

or_default : Text → Text → Text
or_default s fallback = if text_eq s [] then fallback else s

-- The settings, trimmed.
trimmed : Unicode → LlmRuntimeConfig → LlmRuntimeConfig
trimmed u cfg = record {
  provider = to_lower u (trim_space cfg.provider);
  model = trim_space cfg.model;
  base_url = trim_space cfg.base_url;
  api_key = trim_space cfg.api_key;
}

has_config : LlmRuntimeConfig → Bool
has_config c =
    not (text_eq c.provider [])
    || (not (text_eq c.model []) || (not (text_eq c.base_url []) || not (text_eq c.api_key [])))

client_of : Text → LlmRuntimeConfig → LlmClient
client_of fallback c = record {
  base_url = or_default c.base_url fallback;
  api_key = c.api_key;
  model = c.model;
}

-- The `switch`, on the provider's name.
select_provider : LlmRuntimeConfig → Text → Result Error (Option LlmClient)
select_provider c provider =
    if text_eq provider (lit "local") || text_eq provider (lit "ollama")
    then (if text_eq c.model []
        then err (model_required provider)
        else ok (some (client_of (lit "http://localhost:11434/v1") c)))
    else if text_eq provider (lit "openai")
    then (if text_eq c.model []
        then err (model_required provider)
        else if text_eq c.api_key []
        then err (api_key_required provider)
        else ok (some (client_of (lit "https://api.openai.com/v1") c)))
    else if text_eq provider (lit "anthropic")
    then err (not_supported provider)
    else err (unsupported provider)

-- `BuildLLMExtractor`: the extractor or the error, and the provider's name.
build_llm_extractor : Unicode → LlmRuntimeConfig → Result Error (Option LlmClient) × Text
build_llm_extractor u cfg =
    if has_config (trimmed u cfg)
    then (
      select_provider (trimmed u cfg) (or_default (trimmed u cfg).provider (lit "local")),
      or_default (trimmed u cfg).provider (lit "local"),
    )
    else (ok none, lit "local")

or_default_nonempty :
    (s fallback : Text) → text_eq fallback [] ≡ false → text_eq (or_default s fallback) [] ≡ false
unfolding or_default
or_default_nonempty s fallback full = ground arith

text_eq_other :
    (s t other : Text) → text_eq s t ≡ true → text_eq t other ≡ false → text_eq s other ≡ false
text_eq_other s t other same apart =
    subst (λ x. text_eq x other ≡ false) (sym ((text_eq_iff s t).0 same)) apart

-- What a client has, for the provider's name.
abbrev IsComplete : Text → LlmClient → Type 0
IsComplete provider client =
    (text_eq client.model [] ≡ false)
    × (text_eq client.base_url [] ≡ false)
    × (text_eq provider (lit "openai") ≡ true → text_eq client.api_key [] ≡ false)

local_not_openai :
    (provider : Text)
    → text_eq provider (lit "local") || text_eq provider (lit "ollama") ≡ true
    → text_eq provider (lit "openai") ≡ false
unfolding text_eq
local_not_openai provider h = elim (Bool-cases (text_eq provider (lit "local"))) [
  | inl same ↦ text_eq_other provider (lit "local") (lit "openai") same refl
  | inr apart ↦ text_eq_other provider (lit "ollama") (lit "openai") (ground arith) refl
]

client_of-IsComplete :
    (c : LlmRuntimeConfig) (fallback provider : Text) (client : LlmClient)
    → text_eq c.model [] ≡ false
    → text_eq fallback [] ≡ false
    → (text_eq provider (lit "openai") ≡ true → text_eq c.api_key [] ≡ false)
    → client_of fallback c ≡ client
    → IsComplete provider client
unfolding client_of
client_of-IsComplete c fallback provider client model full key e =
    subst (IsComplete provider) e (model, or_default_nonempty c.base_url fallback full, key)

-- A client has a model and an address, and one of OpenAI a key too.
select_provider-IsComplete :
    (c : LlmRuntimeConfig) (provider : Text) (client : LlmClient)
    → select_provider c provider ≡ ok (some client)
    → IsComplete provider client
unfolding select_provider text_eq
select_provider-IsComplete c provider client h = elim (Bool-cases (text_eq c.model [])) [
  | inl blank ↦ absurd (ground arith)
  | inr model ↦
      elim (Bool-cases (text_eq provider (lit "local") || text_eq provider (lit "ollama"))) [
        | inl here ↦
            client_of-IsComplete c (lit "http://localhost:11434/v1") provider client model refl
              (λ is_open. absurd (let no = local_not_openai provider here in ground arith))
              (ground arith)
        | inr other ↦ elim (Bool-cases (text_eq c.api_key [])) [
          | inl none_given ↦ absurd (ground arith)
          | inr key ↦
              client_of-IsComplete c (lit "https://api.openai.com/v1") provider client model refl
                (λ is_open. key) (ground arith)
        ]
      ]
]

select_provider-some :
    (c : LlmRuntimeConfig) (provider : Text) → ¬ (select_provider c provider ≡ ok none)
unfolding select_provider
select_provider-some c provider h = ground arith

-- There is no extractor and no error only where no setting is given.
build_llm_extractor-none :
    (u : Unicode) (cfg : LlmRuntimeConfig) (provider : Text)
    → build_llm_extractor u cfg ≡ (ok none, provider)
    → has_config (trimmed u cfg) ≡ false
unfolding build_llm_extractor
build_llm_extractor-none u cfg provider h = elim (Bool-cases (has_config (trimmed u cfg))) [
  | inr nothing ↦ nothing
  | inl given ↦ absurd (
      select_provider-some (trimmed u cfg) (or_default (trimmed u cfg).provider (lit "local"))
        (ground arith))
]

-- The client of the settings has a model and an address, and one of OpenAI a key too.
build_llm_extractor-IsComplete :
    (u : Unicode) (cfg : LlmRuntimeConfig) (provider : Text) (client : LlmClient)
    → build_llm_extractor u cfg ≡ (ok (some client), provider)
    → IsComplete provider client
unfolding build_llm_extractor
build_llm_extractor-IsComplete u cfg provider client h =
    elim (Bool-cases (has_config (trimmed u cfg))) [
      | inr nothing ↦ absurd (ground arith)
      | inl given ↦ select_provider-IsComplete (trimmed u cfg) provider client (ground arith)
    ]
