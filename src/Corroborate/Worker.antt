-- ===== src/Corroborate/Worker.antt =====
-- `CorroborateOnce` of internal/workers/corroborate.go, over the tables of the vault.
pub mod Single
use factvault.Common.{
  ℕ, suc, Bool, true, false, not, ◌&&◌, ◌||◌, Option, none, some, List, [], ◌∷◌, Text, text_eq,
  take, concat, ltb, ◌==◌, if◌then◌else◌, Result, ok, err,
}
use factvault.Utf8.{runes}
use factvault.Strings.{Unicode}
use factvault.Db.{Source, Statement, StatementSource, Vault}
use factvault.Corroborate.{SourceEvidence, corroborated_confidence}

pub data Error : Type 0 where
  nil_db_pool tenant_required invalid_tenant : Error

-- The host of a URL, as `url.Parse` finds it, and the casts between text and uuid.
pub record Parsers : Type 0 where
  pub unicode : Unicode
  pub hostname : Text → Option Text
  pub uuid_text : ℕ → Text
  pub cast_uuid : Text → Option ℕ

-- `JOIN sources s ON s.id = ss.source_id`, on the rows that row-level security shows.
pub source_by_id : ℕ → ℕ → List Source → Option Source
source_by_id tenant id [] = none
source_by_id tenant id (s ∷ ss) =
    let rest = source_by_id tenant id ss in
    if s.tenant_id == tenant && s.id == id then some s else rest

-- `COALESCE(x, '')`.
abbrev text_or_empty : Option Text → Text
text_or_empty none = []
text_or_empty (some s) = s

-- `LEFT(COALESCE(s.raw_text, ''), 32768)`.
left : Option Text → Text
left text = concat (take 32768 (runes (text_or_empty text)))

pub evidence_row : Parsers → Source → StatementSource → SourceEvidence
evidence_row p source link = record {
  statement_id = link.statement_id;
  source_id = p.uuid_text link.source_id;
  url = source.url;
  publisher = text_or_empty source.publisher;
  raw_text = left source.raw_text;
  confidence = link.confidence;
}

-- `ORDER BY ss.statement_id, ss.source_id`.
comes_before : StatementSource → StatementSource → Bool
comes_before a b =
    ltb a.statement_id b.statement_id
    || (a.statement_id == b.statement_id && ltb a.source_id b.source_id)

pub insert_link : StatementSource → List StatementSource → List StatementSource
insert_link l [] = l ∷ []
insert_link l (x ∷ xs) =
    let rest = insert_link l xs in if comes_before x l then x ∷ rest else l ∷ x ∷ xs

pub order_links : List StatementSource → List StatementSource
order_links [] = []
order_links (l ∷ ls) = insert_link l (order_links ls)

-- The joined rows of the tenant, in the order of the links.
pub evidence_rows : Parsers → ℕ → List Source → List StatementSource → List SourceEvidence
evidence_rows p tenant sources [] = []
evidence_rows p tenant sources (l ∷ ls) =
    let rest = evidence_rows p tenant sources ls in
    if l.tenant_id == tenant
    then elim (source_by_id tenant l.source_id sources) [
      | none ↦ rest
      | some source ↦ evidence_row p source l ∷ rest
    ]
    else rest

pub select_evidence : Parsers → ℕ → Vault → List SourceEvidence
select_evidence p tenant v =
    take 1000 (evidence_rows p tenant v.sources (order_links v.statement_sources))

-- `byStatement[id]`.
pub evidence_of : ℕ → List SourceEvidence → List SourceEvidence
evidence_of id [] = []
evidence_of id (ev ∷ evs) =
    let rest = evidence_of id evs in if ev.statement_id == id then ev ∷ rest else rest

-- The UPDATE for a statement with evidence.
abbrev pub reweigh : Parsers → ℕ → Statement → List SourceEvidence → Statement
reweigh p tenant s [] = s
reweigh p tenant s (ev ∷ evs) =
    if s.tenant_id == tenant
    then record s { confidence = corroborated_confidence p.unicode p.hostname (ev ∷ evs) }
    else s

-- The loop over `byStatement`. Its keys are distinct and each UPDATE touches the rows of its own
-- key, so the order, which Go leaves open, makes no difference.
unfoldable pub reweigh_all : Parsers → ℕ → List SourceEvidence → List Statement → List Statement
reweigh_all p tenant evidence [] = []
reweigh_all p tenant evidence (s ∷ ss) =
    reweigh p tenant s (evidence_of s.id evidence) ∷ reweigh_all p tenant evidence ss

unfoldable pub corroborate_tenant : Parsers → Option ℕ → Vault → Result Error Vault
corroborate_tenant p none v = err invalid_tenant
corroborate_tenant p (some tenant) v =
    ok (record v { statements = reweigh_all p tenant (select_evidence p tenant v) v.statements })

-- `CorroborateOnce`.
unfoldable pub corroborate_once : Parsers → Bool → Text → Vault → Result Error Vault
corroborate_once p has_pool tenant_id v =
    if not has_pool
    then err nil_db_pool
    else if text_eq tenant_id []
    then err tenant_required
    else corroborate_tenant p (p.cast_uuid tenant_id) v
