-- ===== src/Embed/Kept.antt =====
-- internal/workers/embed.go: what a run changes.
use factvault.Common.{
  ℕ, true, Option, none, some, List, [], ◌∷◌, Text, length, map, ◌≡◌, refl, ap, subst, ◌∙◌, ◌⊎◌,
  inl, inr, arith, ℤ, Result, ok, err, Bool-cases, Option-cases, Result-cases, ◌==◌, text_eq, ◌&&◌,
}
use factvault.Embed.{
  Error, Vector, EmbedRow, EmbedDb, Embedder, Others, EmbedResult, embed, has_dims, checked_vectors,
  is_pending, update_row, write_vectors, write_checked, populate, fetch_rows, populate_entities,
  populate_sources, populate_statements, entity_embed_text, source_embed_text, statement_embed_text,
  then_table, run_once, embed_limit,
}

checked_vectors-ok :
    (service : Embedder) (texts : List Text) (vs : List Vector)
    → checked_vectors service texts ≡ ok vs
    → has_dims vs ≡ true
unfolding checked_vectors
checked_vectors-ok service texts vs h = elim (Result-cases (embed service texts)) [
  | inr (e, bad) ↦ absurd (ground arith)
  | inl (ws, good) ↦ elim (Bool-cases (has_dims ws)) [
    | inl d ↦ ground arith
    | inr d ↦ absurd (ground arith)
  ]
]

module _ {A : Type 0} where
  -- The row is as it was, or it is the tenant's, had no vector, and has one of 1024 numbers now.
  abbrev IsFilled : ℕ → EmbedRow A → EmbedRow A → Type 0
  IsFilled tenant before after =
      (after ≡ before)
      ⊎ ((v : Vector) × (before.tenant_id ≡ tenant)
          × (before.embedding ≡ none)
          × (length v ≡ 1024)
          × (after ≡ record before { embedding = some v }))

  -- So is each row of the table.
  abbrev AreFilled : ℕ → List (EmbedRow A) → List (EmbedRow A) → Type 0
  AreFilled tenant [] [] = Unit
  AreFilled tenant [] (y ∷ ys) = ⊥
  AreFilled tenant (x ∷ xs) [] = ⊥
  AreFilled tenant (x ∷ xs) (y ∷ ys) = IsFilled tenant x y × AreFilled tenant xs ys

  AreFilled-refl : (tenant : ℕ) (xs : List (EmbedRow A)) → AreFilled tenant xs xs
  AreFilled-refl tenant [] = tt
  AreFilled-refl tenant (x ∷ xs) = (inl refl, AreFilled-refl tenant xs)

  IsFilled-trans :
      (tenant : ℕ) (x y z : EmbedRow A)
      → IsFilled tenant x y
      → IsFilled tenant y z
      → IsFilled tenant x z
  IsFilled-trans tenant x y z (inl e) h = subst (λ r. IsFilled tenant r z) e h
  IsFilled-trans tenant x y z (inr (v, t, n, d, e)) (inl f) = inr (v, t, n, d, f ∙ e)
  IsFilled-trans tenant x y z (inr (v, t, n, d, e)) (inr (w, t', n', d', e')) =
      absurd (ground (arith, ap (λ (r : EmbedRow A). r.embedding) e))

  AreFilled-trans :
      (tenant : ℕ) (xs ys zs : List (EmbedRow A))
      → AreFilled tenant xs ys
      → AreFilled tenant ys zs
      → AreFilled tenant xs zs
  AreFilled-trans tenant [] [] [] h k = tt
  AreFilled-trans tenant [] [] (z ∷ zs) h k = absurd k
  AreFilled-trans tenant [] (y ∷ ys) zs h k = absurd h
  AreFilled-trans tenant (x ∷ xs) [] zs h k = absurd h
  AreFilled-trans tenant (x ∷ xs) (y ∷ ys) [] h k = absurd k
  AreFilled-trans tenant (x ∷ xs) (y ∷ ys) (z ∷ zs) h k =
      (IsFilled-trans tenant x y z h.0 k.0, AreFilled-trans tenant xs ys zs h.1 k.1)

  update_row-IsFilled :
      (tenant id : ℕ) (v : Vector) (r : EmbedRow A)
      → length v ≡ 1024
      → IsFilled tenant r (update_row tenant id v r)
  unfolding update_row is_pending
  update_row-IsFilled tenant id v r d = elim (Option-cases r.embedding) [
    | inr (w, has) ↦ inl (ground arith)
    | inl missing ↦ elim (Bool-cases (r.tenant_id == tenant && r.id == id)) [
      | inl hit ↦ inr (v, ground arith, missing, d, ground arith)
      | inr miss ↦ inl (ground arith)
    ]
  ]

  update_rows-AreFilled :
      (tenant id : ℕ) (v : Vector) (rs : List (EmbedRow A))
      → length v ≡ 1024
      → AreFilled tenant rs (map (update_row tenant id v) rs)
  update_rows-AreFilled tenant id v [] d = tt
  update_rows-AreFilled tenant id v (r ∷ rs) d =
      (update_row-IsFilled tenant id v r d, update_rows-AreFilled tenant id v rs d)

  write_vectors-AreFilled :
      (tenant : ℕ) (pending : List (EmbedRow A)) (vs : List Vector) (rows : List (EmbedRow A))
      → has_dims vs ≡ true
      → AreFilled tenant rows (write_vectors tenant pending vs rows)
  unfolding write_vectors has_dims
  write_vectors-AreFilled tenant [] vs rows d = AreFilled-refl tenant rows
  write_vectors-AreFilled tenant (r ∷ rs) [] rows d = AreFilled-refl tenant rows
  write_vectors-AreFilled tenant (r ∷ rs) (v ∷ vs) rows d =
      AreFilled-trans tenant rows (map (update_row tenant r.id v) rows) _
        (update_rows-AreFilled tenant r.id v rows (ground arith))
        (write_vectors-AreFilled tenant rs vs (map (update_row tenant r.id v) rows) (ground arith))

  -- The table is the one before the step, or that which other transactions left, with rows filled.
  abbrev IsStep :
      (List (EmbedRow A) → List (EmbedRow A)) → ℕ → List (EmbedRow A) → List (EmbedRow A) → Type 0
  IsStep others tenant before after =
      AreFilled tenant before after ⊎ AreFilled tenant (others before) after

  populate-IsStep :
      (service : Embedder) (embed_text : A → Text) (others : List (EmbedRow A) → List (EmbedRow A))
      (tenant limit : ℕ) (rows : List (EmbedRow A))
      → IsStep others tenant rows (populate service embed_text others tenant limit rows).1
  unfolding populate write_checked
  populate-IsStep service embed_text others tenant limit rows =
      elim (Bool-cases (length (fetch_rows tenant limit rows) == 0)) [
        | inl none_left ↦ rw none_left (inl (AreFilled-refl tenant rows))
        | inr some_left ↦ rw some_left (
            written (fetch_rows tenant limit rows)
              (checked_vectors service
                (map (λ r. embed_text r.content) (fetch_rows tenant limit rows)))
              (λ vs h. checked_vectors-ok service _ vs h))
      ]
    where
      written :
          (pending : List (EmbedRow A)) (checked : Result Error (List Vector))
          → ((vs : List Vector) → checked ≡ ok vs → has_dims vs ≡ true)
          → IsStep others tenant rows (write_checked tenant pending checked (others rows)).1
      written pending (err failure) d = inr (AreFilled-refl tenant (others rows))
      written pending (ok vs) d =
          inr (write_vectors-AreFilled tenant pending vs (others rows) (d vs refl))

-- Each table took such a step.
abbrev pub AreSteps : Others → ℕ → EmbedDb → EmbedDb → Type 0
AreSteps others tenant before after =
    IsStep others.entities tenant before.entities after.entities
    × IsStep others.sources tenant before.sources after.sources
    × IsStep others.statements tenant before.statements after.statements

then_table_cases :
    (P : EmbedDb → Type 0) (first : Result Error ℕ × EmbedDb)
    (next : ℕ → EmbedDb → Result Error EmbedResult × EmbedDb)
    → P first.1
    → ((n : ℕ) → P (next n first.1).1)
    → P (then_table first next).1
unfolding then_table
then_table_cases P (err failure, db) next stop go = stop
then_table_cases P (ok n, db) next stop go = go n

-- A run only fills: whatever the embedder answers, whatever other transactions do to the tables
-- while it answers, and whether or not the run ends in an error, each row of a table is as it was
-- before the run, or as other transactions left it, unless it is a row of the tenant without a
-- vector, which may have been given one, of 1024 numbers. So no vector is overwritten.
pub run_once-AreSteps :
    (scan : Text → Option ℕ) (service : Embedder) (others : Others) (tenant_id : Text) (tenant : ℕ)
    (limit : ℤ) (db : EmbedDb)
    → scan tenant_id ≡ some tenant
    → AreSteps others tenant db (run_once scan service others tenant_id limit db).1
unfolding run_once populate_entities populate_sources populate_statements
run_once-AreSteps scan service others tenant_id tenant limit db scanned =
    let kept_s : IsStep others.sources tenant db.sources db.sources =
      inl (AreFilled-refl tenant db.sources) in
    let kept_t : IsStep others.statements tenant db.statements db.statements =
      inl (AreFilled-refl tenant db.statements) in
    let e =
      populate-IsStep service entity_embed_text others.entities tenant (embed_limit limit)
        db.entities in
    let f =
      populate-IsStep service source_embed_text others.sources tenant (embed_limit limit)
        db.sources in
    let g =
      populate-IsStep service statement_embed_text others.statements tenant (embed_limit limit)
        db.statements in
    elim (Bool-cases (text_eq tenant_id [])) [
      | inl blank ↦ rw blank (inl (AreFilled-refl tenant db.entities), kept_s, kept_t)
      | inr given ↦
          rw (given, scanned)
            (then_table_cases (AreSteps others tenant db) _ _ (e, kept_s, kept_t)
              (λ n.
                then_table_cases (AreSteps others tenant db) _ _ (e, f, kept_t)
                  (λ m.
                    then_table_cases (AreSteps others tenant db) _ _ (e, f, g) (λ k. (e, f, g)))))
    ]
