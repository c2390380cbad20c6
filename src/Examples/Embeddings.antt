-- ===== src/Examples/Embeddings.antt =====
-- An embedder that answers every text, and tables with rows to embed.
use factvault.Common.{
  ℕ, zero, suc, ◌≡◌, refl, ap, true, arith, none, some, List, [], ◌∷◌, map, Text, lit, pos, length,
  AreDistinct,
}
use factvault.Embed.{
  Vector, Embedder, EmbedRow, EntityContent, EmbedDb, Others, embed, has_dims, pending_rows,
  run_once, entity_embed_text,
}
use factvault.Embed
use factvault.Embed.Kept.{AreSteps, run_once-AreSteps}
use factvault.Embed.Backlog.{IsServing, runs, runs_drained}

zeros : ℕ → Vector
zeros zero = []
zeros (suc n) = 0 ∷ zeros n

length-map-zeros : (n : ℕ) → length (map (λ (r : ℕ). r) (zeros n)) ≡ n
unfolding zeros
length-map-zeros zero = refl
length-map-zeros (suc n) = ap suc (length-map-zeros n)

abbrev embedder : Embedder
embedder = record {
  answer = λ texts. some (200, some (map (λ t. zeros 1024) texts));
  narrow = λ r. r;
}

abbrev answered : List Text → List Vector
answered texts = map (λ v. map (λ (r : ℕ). r) v) (map (λ (t : Text). zeros 1024) texts)

answered-length : (texts : List Text) → length (answered texts) ≡ length texts
answered-length [] = refl
answered-length (t ∷ ts) = ap suc (answered-length ts)

answered-dims : (texts : List Text) → has_dims (answered texts) ≡ true
unfolding has_dims
answered-dims [] = refl
answered-dims (t ∷ ts) = ground (arith, length-map-zeros 1024, answered-dims ts)

embedder-IsServing : IsServing embedder
unfolding embed
embedder-IsServing [] = ([], refl, refl, answered-dims [])
embedder-IsServing (t ∷ ts) =
    (answered (t ∷ ts), refl, answered-length (t ∷ ts), answered-dims (t ∷ ts))

abbrev row : ℕ → EmbedRow EntityContent
row id = record {
  id = id;
  tenant_id = 7;
  content = record { label = lit "Acme"; description = none };
  embedding = none;
}

abbrev rows : List (EmbedRow EntityContent)
rows = row 1 ∷ row 2 ∷ row 3 ∷ []

rows-AreDistinct : AreDistinct (λ (r : EmbedRow EntityContent). r.id) rows
rows-AreDistinct = ground arith

runs_drained_example : pending_rows 7 (runs embedder entity_embed_text 7 2 2 rows) ≡ []
unfolding pending_rows Embed.is_pending
runs_drained_example =
    runs_drained embedder entity_embed_text 7 2 2 rows embedder-IsServing rows-AreDistinct
      (omega arith)

abbrev tables : EmbedDb
tables = record { entities = rows; sources = []; statements = [] }

abbrev others : Others
others = record { entities = λ rs. row 4 ∷ rs; sources = λ rs. rs; statements = λ rs. rs }

run_once-AreSteps_example :
    AreSteps others 7 tables (run_once (λ t. some 7) embedder others (lit "t") (pos 2) tables).1
run_once-AreSteps_example =
    run_once-AreSteps (λ t. some 7) embedder others (lit "t") 7 (pos 2) tables refl
