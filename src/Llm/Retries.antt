-- ===== src/Llm/Retries.antt =====
-- internal/extractors/llm.go: which of the attempts is answered.
use factvault.Common.{
  ℕ, zero, suc, ◌+◌, ◌≤◌, ◌<◌, true, ◌||◌, List, Text, length, ltb, ◌==◌, ==_iff, ◌∙◌, ◌≡◌, sym, ap,
  subst, arith, inl, inr, ok, Bool-cases, Result-cases,
}
use factvault.Extract.{StatementProposal}
use factvault.Llm.{LlmServer, is_retryable, attempt_once, attempts, read_completion, llm_extract}

module _ (s : LlmServer) (max_body_bytes : ℕ) where
  -- The attempt was answered, with a status that asks for another one.
  abbrev pub IsRefused : ℕ → Type 0
  IsRefused attempt =
      (status : ℕ) × (body : Text) × (attempt_once s max_body_bytes attempt ≡ ok (status, body))
      × (is_retryable status ≡ true)

  -- The attempt is the last one.
  answered_at :
      (more attempt status last st : ℕ) (body b : Text)
      → attempt_once s max_body_bytes attempt ≡ ok (st, b)
      → ◌≡◌ {A = ℕ × Text × ℕ} (st, b, attempt) (status, body, last)
      → (attempt ≤ last)
        × (last ≤ attempt + more)
        × (attempt_once s max_body_bytes last ≡ ok (status, body))
        × ((k : ℕ) → attempt ≤ k → k < last → IsRefused k)
  answered_at more attempt status last st body b good e =
      let at : attempt ≡ last = ap (λ (t : ℕ × Text × ℕ). t.2) e in
      let pair : ◌≡◌ {A = ℕ × Text} (st, b) (status, body) =
        ap (λ (t : ℕ × Text × ℕ). (t.0, t.1)) e in
      (
        omega arith,
        omega arith,
        ap (attempt_once s max_body_bytes) (sym at) ∙ good ∙ ap ok pair,
        λ k from before. absurd (omega arith),
      )

  attempts-ok :
      (more attempt status last : ℕ) (body : Text)
      → attempts s max_body_bytes more attempt ≡ ok (status, body, last)
      → (attempt ≤ last)
        × (last ≤ attempt + more)
        × (attempt_once s max_body_bytes last ≡ ok (status, body))
        × ((k : ℕ) → attempt ≤ k → k < last → IsRefused k)
  unfolding attempts
  attempts-ok zero attempt status last body h =
      elim (Result-cases (attempt_once s max_body_bytes attempt)) [
        | inr (e, bad) ↦ absurd (ground arith)
        | inl ((st, b), good) ↦ answered_at zero attempt status last st body b good (ground arith)
      ]
  attempts-ok (suc more) attempt status last body h =
      elim (Result-cases (attempt_once s max_body_bytes attempt)) [
        | inr (e, bad) ↦ absurd (ground arith)
        | inl ((st, b), good) ↦ elim (Bool-cases (is_retryable st)) [
          | inl again ↦
              (let (from, upto, answered, refused) =
                  attempts-ok more (suc attempt) status last body (ground arith) in
                (
                  omega arith,
                  omega arith,
                  answered,
                  λ k low high. elim (Bool-cases (k == attempt)) [
                    | inl here ↦
                        subst IsRefused (sym ((==_iff k attempt).0 here)) (st, b, good, again)
                    | inr later ↦ refused k (ground arith) high
                  ],
                ))
          | inr settled ↦ answered_at (suc more) attempt status last st body b good (ground arith)
        ]
      ]

-- Where `Extract` returns proposals, it made at most three requests: the last was answered with a
-- status in the 200s and a body within the bound, and every one before it with 429 or a status of
-- at least 500.
pub llm_extract-ok :
    (s : LlmServer) (max_body_bytes : ℕ) (ps : List StatementProposal)
    → llm_extract s max_body_bytes ≡ ok ps
    → (last : ℕ) × (status : ℕ) × (body : Text) × (last < 3)
      × (attempt_once s max_body_bytes last ≡ ok (status, body))
      × (200 ≤ status)
      × (status < 300)
      × (length body ≤ max_body_bytes)
      × ((k : ℕ) → k < last → IsRefused s max_body_bytes k)
unfolding llm_extract read_completion
llm_extract-ok s max_body_bytes ps h = elim (Result-cases (attempts s max_body_bytes 2 0)) [
  | inr (e, bad) ↦ absurd (ground arith)
  | inl ((status, body, last), good) ↦
      (let (from, upto, answered, refused) =
          attempts-ok s max_body_bytes 2 0 status last body good in
        elim (Bool-cases (ltb max_body_bytes (length body))) [
          | inl large ↦ absurd (ground arith)
          | inr fits ↦ elim (Bool-cases (ltb status 200 || ltb 299 status)) [
            | inl bad ↦ absurd (ground arith)
            | inr fine ↦ (
              last,
              status,
              body,
              omega arith,
              answered,
              ground arith,
              ground arith,
              ground arith,
              λ k before. refused k (omega arith) before,
            )
          ]
        ])
]
