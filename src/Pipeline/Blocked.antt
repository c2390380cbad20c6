-- ===== src/Pipeline/Blocked.antt =====
-- When archiving fails.
use factvault.Common.{
  Text, ◌≡◌, ◌↔◌, ◌⊎◌, inl, inr, List, [], ◌∷◌, arith, ℕ, ℤ, take, ok, err, Result-cases,
  Option-cases, Bool-cases, none, some, false, ◌&&◌, ap, subst,
}
use factvault.Db.{Source, Vault}
use factvault.Extract.{effective_limit}
use factvault.Pipeline.Html.{strip_html}
use factvault.Pipeline.{
  Error, World, decompress, bytes_of, is_collected, sources_where, archive_source, archive_sources,
  archive_once, archive_tenant, write_archive, invalid_tenant, update_refused, update_source,
  archive_update, submit_wayback,
}

-- The source cannot be archived: its HTML cannot be decompressed, or the database cannot hold the
-- text that is left of it, or the address that the Wayback Machine gave.
abbrev IsStuck : World → Source → Type 0
IsStuck world s =
    ((e : Error) × (decompress world (bytes_of s.raw_html) ≡ err e))
    ⊎ ((html : Text) × (decompress world (bytes_of s.raw_html) ≡ ok html)
        × ((world.storable (strip_html html) ≡ false)
            ⊎ (world.storable (submit_wayback (world.submit s.url)) ≡ false)))

-- One of the sources cannot be archived.
abbrev pub IsBlocked : World → List Source → Type 0
IsBlocked world [] = ⊥
IsBlocked world (s ∷ ss) = IsStuck world s ⊎ IsBlocked world ss

archive_source-cases :
    (world : World) (tenant : ℕ) (item : Source) (ss : List Source)
    → ((e : Error) × (archive_source world tenant item ss ≡ err e) × IsStuck world item)
      ⊎ ((us : List Source) × (archive_source world tenant item ss ≡ ok us)
          × (IsStuck world item → ⊥))
unfolding archive_source write_archive
archive_source-cases world tenant item ss =
    elim (Result-cases (decompress world (bytes_of item.raw_html))) [
      | inr (e, failed) ↦ inl (e, ground arith, inl (e, failed))
      | inl (html, read) ↦
          (let url = submit_wayback (world.submit item.url) in
            elim (Bool-cases (world.storable (strip_html html) && world.storable url)) [
              | inr refused ↦ inl (update_refused, ground arith, inr (html, read, ground arith))
              | inl taken ↦ inr (
                update_source tenant item.id (archive_update (strip_html html) url) ss,
                ground arith,
                λ stuck. elim stuck [
                  | inl (e, failed) ↦ absurd (ground arith)
                  | inr (other, same, refused) ↦
                      (let e : html ≡ other = ground arith in
                        ground (arith, ap (λ h. world.storable (strip_html h)) e))
                ],
              )
            ])
    ]

archive_sources-err_iff :
    (world : World) (tenant : ℕ) (items ss : List Source)
    → ((e : Error) × (archive_sources world tenant items ss ≡ err e)) ↔ IsBlocked world items
unfolding archive_sources
archive_sources-err_iff world tenant [] ss = (λ h. absurd (ground arith), λ h. absurd h)
archive_sources-err_iff world tenant (item ∷ items) ss =
    elim (archive_source-cases world tenant item ss) [
      | inl (e, failed, stuck) ↦ (λ h. inl stuck, λ h. (e, ground arith))
      | inr (us, written, clear) ↦
          (let rest = archive_sources-err_iff world tenant items us in
            (
              λ (e, h). inr (rest.0 (e, ground arith)),
              λ h. elim h [
                | inl stuck ↦ absurd (clear stuck)
                | inr later ↦ (let (e, failed) = rest.1 later in (e, ground arith))
              ],
            ))
    ]

archive_tenant-err_iff :
    (world : World) (tenant : ℕ) (limit : ℤ) (v : Vault)
    → ((e : Error) × (archive_tenant world tenant limit v ≡ err e))
      ↔ IsBlocked world
          (take (effective_limit limit) (sources_where (is_collected tenant) v.sources))
unfolding archive_tenant
archive_tenant-err_iff world tenant limit v =
    let items = take (effective_limit limit) (sources_where (is_collected tenant) v.sources) in
    let fails = archive_sources-err_iff world tenant items v.sources in
    elim (Result-cases (archive_sources world tenant items v.sources)) [
      | inl (ss, archived) ↦
          (λ h. absurd (ground arith), λ h. (let (e, failed) = fails.1 h in absurd (ground arith)))
      | inr (e, failed) ↦ (λ h. fails.0 (e, failed), λ h. (e, ground arith))
    ]

-- Where transactions begin and commit and the queries run, `ArchiveOnce` fails exactly if the
-- tenant's id is no UUID, or one of the sources that it picks cannot be decompressed or gives a
-- text that the database cannot hold; then none of them is archived. It picks the tenant's
-- collected sources, up to the limit.
pub archive_once-err_iff :
    (world : World) (tenant_id : Text) (limit : ℤ) (v : Vault)
    → ((e : Error) × (archive_once world tenant_id limit v ≡ err e)) ↔ (
        (world.scan_uuid tenant_id ≡ none)
        ⊎ ((tenant : ℕ) × (world.scan_uuid tenant_id ≡ some tenant)
            × IsBlocked world
                (take (effective_limit limit) (sources_where (is_collected tenant) v.sources))))
unfolding archive_once
archive_once-err_iff world tenant_id limit v = elim (Option-cases (world.scan_uuid tenant_id)) [
  | inl bad ↦ (λ h. inl bad, λ h. (invalid_tenant, ground arith))
  | inr (tenant, scanned) ↦
      (let run = archive_tenant-err_iff world tenant limit v in
        (
          λ (e, h). inr (tenant, scanned, run.0 (e, ground arith)),
          λ h. elim h [
            | inl bad ↦ absurd (ground arith)
            | inr (other, same, blocked) ↦
                (let e : other ≡ tenant = ground arith in
                  let (failure, failed) = run.1 (
                    subst
                      (λ (t : ℕ).
                        IsBlocked world
                          (take (effective_limit limit) (sources_where (is_collected t) v.sources)))
                      e blocked) in
                  (failure, ground arith))
          ],
        ))
]
