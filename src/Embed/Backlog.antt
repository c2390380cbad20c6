-- ===== src/Embed/Backlog.antt =====
-- internal/workers/embed.go: repeated runs leave no row without a vector.
use factvault.Common.{
  ℕ, zero, suc, ◌*◌, ◌≤◌, true, false, List, [], ◌∷◌, Text, length, length-drop, take, drop, map,
  ◌≡◌, ◌≢◌, refl, sym, ap, ◌∙◌, inl, inr, arith, ok, Bool-cases, Option-cases, ◌==◌, AreDistinct,
  In, In-map,
}
use factvault.Embed.{
  Vector, EmbedRow, Embedder, embed, has_dims, checked_vectors, is_pending, pending_rows,
  update_row, write_vectors, write_checked, populate, fetch_rows,
}

module _ {A : Type 0} (tenant : ℕ) where
  update_row-id : (id : ℕ) (v : Vector) (r : EmbedRow A) → (update_row tenant id v r).id ≡ r.id
  unfolding update_row
  update_row-id id v r = ground arith

  -- An update at an id that no row has changes no row.
  update_rows_miss :
      (id : ℕ) (v : Vector) (rs : List (EmbedRow A))
      → ((r : EmbedRow A) → In r rs → r.id ≢ id)
      → map (update_row tenant id v) rs ≡ rs
  unfolding update_row
  update_rows_miss id v [] h = refl
  update_rows_miss id v (r ∷ rs) h =
      ground (arith, h r (inl refl), update_rows_miss id v rs (λ x m. h x (inr m)))

  update_rows-AreDistinct :
      (id : ℕ) (v : Vector) (rs : List (EmbedRow A))
      → AreDistinct (λ r. r.id) rs
      → AreDistinct (λ r. r.id) (map (update_row tenant id v) rs)
  update_rows-AreDistinct id v [] h = tt
  update_rows-AreDistinct id v (r ∷ rs) h = (
    λ y m e.
        (let (x, in_x, made) = In-map (update_row tenant id v) y rs m in
          h.0 x in_x (
            sym (ap (λ (z : EmbedRow A). z.id) made ∙ update_row-id id v x)
            ∙ e
            ∙ update_row-id id v r)),
    update_rows-AreDistinct id v rs h.1,
  )

  update_row_settled :
      (id : ℕ) (v : Vector) (r : EmbedRow A)
      → is_pending tenant r ≡ false
      → update_row tenant id v r ≡ r
  unfolding update_row
  update_row_settled id v r h = ground arith

  update_row_hit :
      (id : ℕ) (v : Vector) (r : EmbedRow A)
      → is_pending tenant r ≡ true
      → r.id ≡ id
      → is_pending tenant (update_row tenant id v r) ≡ false
  unfolding update_row is_pending
  update_row_hit id v r h e = elim (Option-cases r.embedding) [
    | inr (w, has) ↦ absurd (ground arith)
    | inl missing ↦ elim (Bool-cases (r.tenant_id == tenant)) [
      | inl own ↦ ground arith
      | inr other ↦ absurd (ground arith)
    ]
  ]

  -- The update of the first pending row takes it off the pending rows.
  pending_rows-update :
      (v : Vector) (rs : List (EmbedRow A)) (p : EmbedRow A) (ps : List (EmbedRow A))
      → AreDistinct (λ r. r.id) rs
      → pending_rows tenant rs ≡ p ∷ ps
      → pending_rows tenant (map (update_row tenant p.id v) rs) ≡ ps
  unfolding pending_rows
  pending_rows-update v [] p ps h e = absurd (ground arith)
  pending_rows-update v (r ∷ rs) p ps h e = elim (Bool-cases (is_pending tenant r)) [
    | inl pending ↦
        (let both : ◌≡◌ {A = List (EmbedRow A)} (r ∷ pending_rows tenant rs) (p ∷ ps) =
            ground arith in
          let head : r ≡ p = ground arith in
          let tail : pending_rows tenant rs ≡ ps = ground arith in
          let same : r.id ≡ p.id = ap (λ (z : EmbedRow A). z.id) head in
          let off = update_row_hit p.id v r pending same in
          let rest = update_rows_miss p.id v rs (λ x m d. h.0 x m (d ∙ sym same)) in ground arith)
    | inr settled ↦
        (let kept = update_row_settled p.id v r settled in
          let tail : pending_rows tenant rs ≡ p ∷ ps = ground arith in
          let rest = pending_rows-update v rs p ps h.1 tail in ground arith)
  ]

  pending_rows-write :
      (n : ℕ) (ps : List (EmbedRow A)) (vs : List Vector) (rows : List (EmbedRow A))
      → AreDistinct (λ r. r.id) rows
      → pending_rows tenant rows ≡ ps
      → length vs ≡ length (take n ps)
      → pending_rows tenant (write_vectors tenant (take n ps) vs rows) ≡ drop n ps
  unfolding write_vectors
  pending_rows-write zero ps vs rows h e len = e
  pending_rows-write (suc n) [] vs rows h e len = e
  pending_rows-write (suc n) (p ∷ ps) [] rows h e len = absurd (ground arith)
  pending_rows-write (suc n) (p ∷ ps) (v ∷ vs) rows h e len =
      pending_rows-write n ps vs (map (update_row tenant p.id v) rows)
        (update_rows-AreDistinct p.id v rows h) (pending_rows-update v rows p ps h e) (omega arith)

  write_vectors-AreDistinct :
      (ps : List (EmbedRow A)) (vs : List Vector) (rows : List (EmbedRow A))
      → AreDistinct (λ r. r.id) rows
      → AreDistinct (λ r. r.id) (write_vectors tenant ps vs rows)
  unfolding write_vectors
  write_vectors-AreDistinct [] vs rows h = h
  write_vectors-AreDistinct (p ∷ ps) [] rows h = h
  write_vectors-AreDistinct (p ∷ ps) (v ∷ vs) rows h =
      write_vectors-AreDistinct ps vs (map (update_row tenant p.id v) rows)
        (update_rows-AreDistinct p.id v rows h)

drop_idle : {A : Type 0} (n : ℕ) (xs : List A) → length (take n xs) ≡ 0 → drop n xs ≡ xs
drop_idle zero xs h = refl
drop_idle (suc n) [] h = refl
drop_idle (suc n) (x ∷ xs) h = absurd (ground arith)

empty_of : {A : Type 0} (xs : List A) → length xs ≤ 0 → xs ≡ []
empty_of [] h = refl
empty_of (x ∷ xs) h = absurd (ground arith)

-- The embedder answers each request with as many vectors of the right dimension as it has texts.
abbrev pub IsServing : Embedder → Type 0
IsServing service =
    (texts : List Text)
    → (vs : List Vector) × (embed service texts ≡ ok vs)
      × (length vs ≡ length texts)
      × (has_dims vs ≡ true)

module _ {A : Type 0} (service : Embedder) (embed_text : A → Text) (tenant limit : ℕ) where
  -- One run over the table, while no other transaction writes.
  abbrev run_alone : List (EmbedRow A) → List (EmbedRow A)
  run_alone rows = (populate service embed_text (λ rs. rs) tenant limit rows).1

  -- Some runs, one after the other.
  abbrev pub runs : ℕ → List (EmbedRow A) → List (EmbedRow A)
  runs zero rows = rows
  runs (suc k) rows = runs k (run_alone rows)

  populate_idle :
      (rows : List (EmbedRow A))
      → (length (fetch_rows tenant limit rows) == 0) ≡ true
      → run_alone rows ≡ rows
  unfolding populate
  populate_idle rows idle = ground arith

  populate_busy :
      (rows : List (EmbedRow A)) (vs : List Vector)
      → (length (fetch_rows tenant limit rows) == 0) ≡ false
      → checked_vectors service (map (λ r. embed_text r.content) (fetch_rows tenant limit rows))
        ≡ ok vs
      → run_alone rows ≡ write_vectors tenant (fetch_rows tenant limit rows) vs rows
  unfolding populate write_checked
  populate_busy rows vs busy checked = ground arith

  length-map_texts :
      (rs : List (EmbedRow A)) → length (map (λ r. embed_text r.content) rs) ≡ length rs
  length-map_texts [] = refl
  length-map_texts (r ∷ rs) = ap suc (length-map_texts rs)

  run_alone_lem :
      (rows : List (EmbedRow A))
      → IsServing service
      → AreDistinct (λ r. r.id) rows
      → (pending_rows tenant (run_alone rows) ≡ drop limit (pending_rows tenant rows))
        × AreDistinct (λ r. r.id) (run_alone rows)
  unfolding checked_vectors fetch_rows
  run_alone_lem rows serving h =
      let fetched = fetch_rows tenant limit rows in
      elim (Bool-cases (length fetched == 0)) [
        | inl idle ↦
            rw (populate_idle rows idle)
              (sym (drop_idle limit (pending_rows tenant rows) (ground arith)), h)
        | inr busy ↦
            (let (vs, answered, counted, dims) =
                serving (map (λ r. embed_text r.content) fetched) in
              let checked : checked_vectors service (map (λ r. embed_text r.content) fetched)
                  ≡ ok vs =
                ground arith in
              let len = length-map_texts fetched in
              rw (populate_busy rows vs busy checked) (
                pending_rows-write tenant limit (pending_rows tenant rows) vs rows h refl
                    (counted ∙ len),
                write_vectors-AreDistinct tenant fetched vs rows h,
              ))
      ]

  -- Repeated runs work the backlog off: where no other transaction writes, the ids of a table are
  -- distinct, and the embedder answers each request with as many vectors of 1024 numbers as it has
  -- texts, no row of the tenant is without a vector after as many runs as the limit goes into the
  -- number of such rows, rounded up.
  pub runs_drained :
      (k : ℕ) (rows : List (EmbedRow A))
      → IsServing service
      → AreDistinct (λ r. r.id) rows
      → length (pending_rows tenant rows) ≤ k * limit
      → pending_rows tenant (runs k rows) ≡ []
  runs_drained zero rows serving h few = empty_of (pending_rows tenant rows) (omega arith)
  runs_drained (suc k) rows serving h few =
      let (left, distinct) = run_alone_lem rows serving h in
      let fewer = length-drop limit (pending_rows tenant rows) in
      runs_drained k (run_alone rows) serving distinct (rw left (omega arith))
