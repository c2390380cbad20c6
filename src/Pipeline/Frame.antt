-- ===== src/Pipeline/Frame.antt =====
-- What an UPDATE does to the rows of `sources`, where ids are unique as in a primary key, and what
-- archiving does.
use factvault.Common.{
  ℕ, ◌≡◌, ◌≢◌, ◌∙◌, sym, refl, ◌⊎◌, inl, inr, Bool, true, ◌&&◌, some, List, [], ◌∷◌, arith, Text, ℤ,
  take, ◌==◌, ok, >>=-ok, ok-injective, All, All-take, Bool-cases, Option-cases, not,
}
use mathlib.Core.Path.{subst}
use factvault.Db.{Source, collected, archived, Vault}
use factvault.Extract.{effective_limit}
use factvault.Pipeline.{
  World, update_source, is_collected, sources_where, archive_update, archive_source,
  archive_sources, archive_once, archive_tenant, write_archive, decompress, bytes_of,
  submit_wayback,
}
use factvault.Pipeline.Html.{strip_html}

-- Two lists of the same length, related row by row.
abbrev pub All2 : (Source → Source → Type 0) → List Source → List Source → Type 0
All2 R [] [] = Unit
All2 R [] (t ∷ ts) = ⊥
All2 R (s ∷ ss) [] = ⊥
All2 R (s ∷ ss) (t ∷ ts) = R s t × All2 R ss ts

abbrev pub HasUniqueIds : List Source → Type 0
HasUniqueIds [] = Unit
HasUniqueIds (s ∷ ss) = All (λ t. t.id ≢ s.id) ss × HasUniqueIds ss

-- The columns that neither archiving nor verifying writes.
pub record Identical (s t : Source) : Type 0 where
  pub id : t.id ≡ s.id
  pub tenant_id : t.tenant_id ≡ s.tenant_id
  pub url : t.url ≡ s.url
  pub content_hash : t.content_hash ≡ s.content_hash
  pub raw_html : t.raw_html ≡ s.raw_html
  pub publisher : t.publisher ≡ s.publisher
  pub title : t.title ≡ s.title

-- The rows of the table with the item's id are the item.
abbrev Picks : List Source → Source → Type 0
Picks ss item = All (λ s. s.id ≡ item.id → s ≡ item) ss

All-sources_where :
    (P : Source → Type 0) (p : Source → Bool) (ss : List Source)
    → All P ss
    → All P (sources_where p ss)
unfolding sources_where
All-sources_where P p [] h = tt
All-sources_where P p (s ∷ ss) h = elim (Bool-cases (p s)) [
  | inl holds ↦ rw holds (h.0, All-sources_where P p ss h.1)
  | inr fails ↦ rw fails (All-sources_where P p ss h.1)
]

abbrev pub Chosen : (Source → Bool) → List Source → Source → Type 0
Chosen p ss item = (p item ≡ true) × Picks ss item

self-Picks : (s : Source) (ss : List Source) → All (λ t. t.id ≢ s.id) ss → Picks ss s
self-Picks s [] h = tt
self-Picks s (t ∷ ss) h = (λ e. absurd (h.0 e), self-Picks s ss h.1)

Chosen-cons :
    (p : Source → Bool) (s : Source) (ss items : List Source)
    → All (λ t. t.id ≢ s.id) items
    → All (Chosen p ss) items
    → All (Chosen p (s ∷ ss)) items
Chosen-cons p s ss [] d h = tt
Chosen-cons p s ss (item ∷ items) d h =
    ((h.0.0, (λ e. absurd (d.0 (sym e)), h.0.1)), Chosen-cons p s ss items d.1 h.1)

pub Chosen-of_unique :
    (p : Source → Bool) (ss : List Source)
    → HasUniqueIds ss
    → All (Chosen p ss) (sources_where p ss)
unfolding sources_where
Chosen-of_unique p [] h = tt
Chosen-of_unique p (s ∷ ss) h =
    let rest =
      Chosen-cons p s ss (sources_where p ss) (All-sources_where (λ t. t.id ≢ s.id) p ss h.0)
        (Chosen-of_unique p ss h.1) in
    elim (Bool-cases (p s)) [
      | inl holds ↦ rw holds ((holds, (λ e. refl, self-Picks s ss h.0)), rest)
      | inr fails ↦ rw fails rest
    ]

pub All2-refl :
    (R : Source → Source → Type 0) (ss : List Source) → ((s : Source) → R s s) → All2 R ss ss
All2-refl R [] h = tt
All2-refl R (s ∷ ss) h = (h s, All2-refl R ss h)

-- An UPDATE keeps the relation if it does on the rows that the item picks.
pub All2-update_source :
    (R : Source → Source → Type 0) (tenant : ℕ) (item : Source) (f : Source → Source)
    (ss ts : List Source)
    → ((s t : Source) → R s t → t.id ≡ s.id)
    → ((t : Source) → R item t → R item (f t))
    → Picks ss item
    → All2 R ss ts
    → All2 R ss (update_source tenant item.id f ts)
unfolding update_source
All2-update_source R tenant item f [] [] ids keeps picks h = tt
All2-update_source R tenant item f [] (t ∷ ts) ids keeps picks h = absurd h
All2-update_source R tenant item f (s ∷ ss) [] ids keeps picks h = absurd h
All2-update_source R tenant item f (s ∷ ss) (t ∷ ts) ids keeps picks h =
    let rest = All2-update_source R tenant item f ss ts ids keeps picks.1 h.1 in
    elim (Bool-cases (t.tenant_id == tenant && t.id == item.id)) [
      | inr fails ↦ rw fails (h.0, rest)
      | inl holds ↦ rw holds (
        (let same = picks.0 (sym (ids s t h.0) ∙ id_of holds) in
            subst (λ u. R u (f t)) (sym same) (keeps t (subst (λ u. R u t) same h.0))),
        rest,
      )
    ]
  where
    id_of : (t.tenant_id == tenant && t.id == item.id) ≡ true → t.id ≡ item.id
    id_of e = ground arith

pub Identical-refl : (s : Source) → Identical s s
Identical-refl s = record {
  id = refl;
  tenant_id = refl;
  url = refl;
  content_hash = refl;
  raw_html = refl;
  publisher = refl;
  title = refl;
}

-- A row before and after archiving: it is as it was, or it was collected and now has a text.
pub record Archives (tenant : ℕ) (s t : Source) : Type 0 where
  pub identical : Identical s t
  pub change :
      (t ≡ s)
      ⊎ ((s.tenant_id ≡ tenant)
          × (s.status ≡ collected)
          × (t.status ≡ archived)
          × (text : Text) × (t.raw_text ≡ some text))

archive_update-Archives :
    (tenant : ℕ) (text archive_url : Text) (s t : Source)
    → is_collected tenant s ≡ true
    → Archives tenant s t
    → Archives tenant s (archive_update text archive_url t)
unfolding is_collected
archive_update-Archives tenant text archive_url s t c h = record {
  identical = record {
    id = h.identical.id;
    tenant_id = h.identical.tenant_id;
    url = h.identical.url;
    content_hash = h.identical.content_hash;
    raw_html = h.identical.raw_html;
    publisher = h.identical.publisher;
    title = h.identical.title;
  };
  change = inr (ground arith, ground arith, refl, text, refl);
}

write_archive-ok :
    (world : World) (tenant : ℕ) (item : Source) (text archive_url : Text) (ts us : List Source)
    → write_archive world tenant item text archive_url ts ≡ ok us
    → update_source tenant item.id (archive_update text archive_url) ts ≡ us
unfolding write_archive
write_archive-ok world tenant item text archive_url ts us h =
    elim (Bool-cases (not (world.storable text && world.storable archive_url))) [
      | inl refused ↦ absurd (ground arith)
      | inr taken ↦ ground arith
    ]

archive_sources-Archives :
    (world : World) (tenant : ℕ) (ss items ts us : List Source)
    → All (Chosen (is_collected tenant) ss) items
    → All2 (Archives tenant) ss ts
    → archive_sources world tenant items ts ≡ ok us
    → All2 (Archives tenant) ss us
unfolding archive_sources archive_source
archive_sources-Archives world tenant ss [] ts us c h e =
    subst (All2 (Archives tenant) ss) (ok-injective e) h
archive_sources-Archives world tenant ss (item ∷ items) ts us c h e =
    let (mid, now, later) =
      >>=-ok (archive_source world tenant item ts) (archive_sources world tenant items) e in
    let (html, read, written) =
      >>=-ok (decompress world (bytes_of item.raw_html))
        (λ html.
          write_archive world tenant item (strip_html html) (submit_wayback (world.submit item.url))
            ts)
        now in
    let update = archive_update (strip_html html) (submit_wayback (world.submit item.url)) in
    archive_sources-Archives world tenant ss items mid us c.1
      (subst (All2 (Archives tenant) ss)
        (write_archive-ok world tenant item (strip_html html)
          (submit_wayback (world.submit item.url)) ts mid written)
        (All2-update_source (Archives tenant) tenant item update ss ts (λ s t r. r.identical.id)
          (λ t r.
            archive_update-Archives tenant (strip_html html)
              (submit_wayback (world.submit item.url)) item t c.0.0 r)
          c.0.1 h))
      later

archive_tenant-Archives :
    (world : World) (tenant : ℕ) (limit : ℤ) (v w : Vault)
    → HasUniqueIds v.sources
    → archive_tenant world tenant limit v ≡ ok w
    → All2 (Archives tenant) v.sources w.sources
unfolding archive_tenant
archive_tenant-Archives world tenant limit v w unique e =
    let items = sources_where (is_collected tenant) v.sources in
    let (ss, ran, kept) =
      >>=-ok (archive_sources world tenant (take (effective_limit limit) items) v.sources)
        (λ ss. ok (record v { sources = ss })) e in
    subst (λ (u : Vault). All2 (Archives tenant) v.sources u.sources) (ok-injective kept)
      (archive_sources-Archives world tenant v.sources (take (effective_limit limit) items)
        v.sources ss
        (All-take _ (effective_limit limit) items
          (Chosen-of_unique (is_collected tenant) v.sources unique))
        (All2-refl (Archives tenant) v.sources
          (λ s. record { identical = Identical-refl s; change = inl refl }))
        ran)

-- Where no two sources share an id, a run of `ArchiveOnce` that returns without an error is one for
-- the UUID of a tenant. It keeps the identity, the hash and the HTML of each source, and leaves it
-- as it was unless it was collected and is the tenant's; then it is archived and has a text.
pub archive_once-Archives :
    (world : World) (tenant_id : Text) (limit : ℤ) (v w : Vault)
    → HasUniqueIds v.sources
    → archive_once world tenant_id limit v ≡ ok w
    → (tenant : ℕ) × (world.scan_uuid tenant_id ≡ some tenant)
      × All2 (Archives tenant) v.sources w.sources
unfolding archive_once
archive_once-Archives world tenant_id limit v w unique e =
    elim (Option-cases (world.scan_uuid tenant_id)) [
      | inl bad ↦ absurd (ground arith)
      | inr (tenant, scanned) ↦
          (tenant, scanned, archive_tenant-Archives world tenant limit v w unique (ground arith))
    ]
