-- ===== src/Embed.antt =====
-- internal/workers/embed.go and internal/embed/client.go: the worker that gives rows their vectors.
-- A number of a vector is an opaque value, and a row that the database would not take is left out.
pub mod Kept
pub mod Backlog
use factvault.Common.{
  ℕ, zero, suc, ◌+◌, Bool, true, false, not, ◌&&◌, ◌||◌, Option, none, some, List, [], ◌∷◌, ◌++◌,
  Text, lit, text_eq, ltb, ◌==◌, length, take, map, ℤ, pos, negsuc, if◌then◌else◌, Result, ok, err,
  ◌>>=◌,
}
use factvault.Strings.{trim_space, join}

pub data Error : Type 0 where
  tenant_required bad_tenant request_failed bad_status bad_response bad_count bad_dims : Error

abbrev pub Vector : Type 0
Vector = List ℕ

-- A row of one of the three tables, with the columns that its text is made of.
pub record EmbedRow (A : Type 0) : Type 0 where
  pub id : ℕ
  pub tenant_id : ℕ
  pub content : A
  pub embedding : Option Vector

pub record EntityContent : Type 0 where
  pub label : Text
  pub description : Option Text

pub record SourceContent : Type 0 where
  pub title : Option Text
  pub raw_text : Option Text

-- The columns of the two joins, which may find nothing.
pub record StatementContent : Type 0 where
  pub subject : Option Text
  pub property : Option Text
  pub val_text : Option Text

-- The tables, each in the order of `created_at`.
pub record EmbedDb : Type 0 where
  pub entities : List (EmbedRow EntityContent)
  pub sources : List (EmbedRow SourceContent)
  pub statements : List (EmbedRow StatementContent)

pub entity_embed_text : EntityContent → Text
entity_embed_text c = elim c.description [
  | none ↦ trim_space c.label
  | some description ↦
      if not (text_eq (trim_space description) [])
      then trim_space c.label ++ (lit " " ++ trim_space description)
      else trim_space c.label
]

-- The text of a nullable column, in a list, if it is not blank.
nonblank : Option Text → List Text
nonblank none = []
nonblank (some t) = if not (text_eq (trim_space t) []) then trim_space t ∷ [] else []

unfoldable pub cut : Text → Text
cut t = if ltb 2048 (length t) then take 2048 t else t

pub source_embed_text : SourceContent → Text
source_embed_text c = elim (nonblank c.title ++ map cut (nonblank c.raw_text)) [
  | [] ↦ lit "(no content)"
  | p ∷ ps ↦ join (p ∷ ps) (lit "\n")
]

coalesce_text : Option Text → Text
coalesce_text none = []
coalesce_text (some t) = t

pub statement_embed_text : StatementContent → Text
statement_embed_text c =
    elim (nonblank (some (coalesce_text c.subject))
      ++ (nonblank (some (coalesce_text c.property))
          ++ nonblank (some (coalesce_text c.val_text)))) [
            | [] ↦ lit "(empty statement)"
            | p ∷ ps ↦ join (p ∷ ps) (lit " ")
          ]

-- The embedder's answer: a status, and the vectors if the body can be read. `narrow` is the
-- conversion of a number to 32 bits.
pub record Embedder : Type 0 where
  pub answer : List Text → Option (ℕ × Option (List Vector))
  pub narrow : ℕ → ℕ

-- `Client.Embed`.
unfoldable pub embed : Embedder → List Text → Result Error (List Vector)
embed service [] = ok []
embed service (t ∷ ts) = elim (service.answer (t ∷ ts)) [
  | none ↦ err request_failed
  | some (status, decoded) ↦ if not (status == 200) then err bad_status else elim decoded [
    | none ↦ err bad_response
    | some vectors ↦ ok (map (λ v. map service.narrow v) vectors)
  ]
]

abbrev expected_embed_dim : ℕ
expected_embed_dim = 1024

unfoldable pub has_dims : List Vector → Bool
has_dims [] = true
has_dims (v ∷ vs) = length v == expected_embed_dim && has_dims vs

-- What the embedder answers for the texts, after the checks of the length and of the dimensions.
pub checked_vectors : Embedder → List Text → Result Error (List Vector)
checked_vectors service texts = embed service texts >>= λ vectors.
    if not (length vectors == length texts)
    then err bad_count
    else if not (has_dims vectors)
    then err bad_dims
    else ok vectors

module _ {A : Type 0} where
  unfoldable pub is_pending : ℕ → EmbedRow A → Bool
  is_pending tenant r = r.tenant_id == tenant && (elim r.embedding [ none ↦ true | some v ↦ false ])

  -- The rows of the tenant that have no vector.
  unfoldable pub pending_rows : ℕ → List (EmbedRow A) → List (EmbedRow A)
  pending_rows tenant [] = []
  pending_rows tenant (r ∷ rs) =
      let rest = pending_rows tenant rs in if is_pending tenant r then r ∷ rest else rest

  pub fetch_rows : ℕ → ℕ → List (EmbedRow A) → List (EmbedRow A)
  fetch_rows tenant limit rows = take limit (pending_rows tenant rows)

  -- One `UPDATE … WHERE id = $2 AND embedding IS NULL`, in the rows that the tenant sees.
  pub update_row : ℕ → ℕ → Vector → EmbedRow A → EmbedRow A
  update_row tenant id v r =
      if is_pending tenant r && r.id == id then record r { embedding = some v } else r

  -- The updates of the third phase, one for each row that was fetched.
  pub write_vectors : ℕ → List (EmbedRow A) → List Vector → List (EmbedRow A) → List (EmbedRow A)
  write_vectors tenant [] vs rows = rows
  write_vectors tenant (r ∷ rs) [] rows = rows
  write_vectors tenant (r ∷ rs) (v ∷ vs) rows =
      write_vectors tenant rs vs (map (update_row tenant r.id v) rows)

  -- The three phases. No transaction is open during the call of the embedder; `others` is what other
  -- transactions do to the table in that time.
  pub write_checked :
      ℕ
      → List (EmbedRow A)
      → Result Error (List Vector)
      → List (EmbedRow A)
      → Result Error ℕ × List (EmbedRow A)
  write_checked tenant pending (err failure) rows = (err failure, rows)
  write_checked tenant pending (ok vectors) rows =
      (ok (length pending), write_vectors tenant pending vectors rows)

  pub populate :
      Embedder
      → (A → Text)
      → (List (EmbedRow A) → List (EmbedRow A))
      → ℕ
      → ℕ
      → List (EmbedRow A)
      → Result Error ℕ × List (EmbedRow A)
  populate service embed_text others tenant limit rows =
      let pending = fetch_rows tenant limit rows in
      if length pending == 0
      then (ok 0, rows)
      else write_checked tenant pending
          (checked_vectors service (map (λ r. embed_text r.content) pending)) (others rows)

pub record Others : Type 0 where
  pub entities : List (EmbedRow EntityContent) → List (EmbedRow EntityContent)
  pub sources : List (EmbedRow SourceContent) → List (EmbedRow SourceContent)
  pub statements : List (EmbedRow StatementContent) → List (EmbedRow StatementContent)

pub embed_limit : ℤ → ℕ
embed_limit (pos n) = if ltb 0 n then n else 100
embed_limit (negsuc n) = 100

-- `EmbedResult`, whose `Skipped` nothing sets.
pub record EmbedResult : Type 0 where
  populated : ℕ
  pub skipped : ℕ

-- The step for one table: its error ends the run, and what it wrote stays.
pub populate_entities : Embedder → Others → ℕ → ℕ → EmbedDb → Result Error ℕ × EmbedDb
populate_entities service others tenant limit db =
    let (found, rows) =
      populate service entity_embed_text others.entities tenant limit db.entities in
    (found, record db { entities = rows })

pub populate_sources : Embedder → Others → ℕ → ℕ → EmbedDb → Result Error ℕ × EmbedDb
populate_sources service others tenant limit db =
    let (found, rows) = populate service source_embed_text others.sources tenant limit db.sources in
    (found, record db { sources = rows })

pub populate_statements : Embedder → Others → ℕ → ℕ → EmbedDb → Result Error ℕ × EmbedDb
populate_statements service others tenant limit db =
    let (found, rows) =
      populate service statement_embed_text others.statements tenant limit db.statements in
    (found, record db { statements = rows })

-- The next table follows, unless there was an error.
pub then_table :
    Result Error ℕ × EmbedDb
    → (ℕ → EmbedDb → Result Error EmbedResult × EmbedDb)
    → Result Error EmbedResult × EmbedDb
then_table (err failure, db) next = (err failure, db)
then_table (ok n, db) next = next n db

-- `RunOnce`; the tenant is the id that its text scans to.
pub run_once :
    (Text → Option ℕ) → Embedder → Others → Text → ℤ → EmbedDb → Result Error EmbedResult × EmbedDb
run_once scan service others tenant_id limit db =
    if text_eq tenant_id [] then (err tenant_required, db) else elim (scan tenant_id) [
      | none ↦ (err bad_tenant, db)
      | some tenant ↦
          then_table (populate_entities service others tenant (embed_limit limit) db)
            (λ entities after.
              then_table (populate_sources service others tenant (embed_limit limit) after)
                (λ sources last.
                  then_table (populate_statements service others tenant (embed_limit limit) last)
                    (λ statements done. (
                      ok (record { populated = entities + sources + statements; skipped = 0 }),
                      done,
                    ))))
    ]
