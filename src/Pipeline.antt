-- ===== src/Pipeline.antt =====
-- internal/workers/source_pipeline.go: sources are collected and archived. A function that runs
-- inside a transaction returns the vault, or the error that rolls it back. The columns
-- `published_at` and `meta` are left out.
pub mod Html
pub mod Frame
pub mod Collected
pub mod Blocked
pub mod Verify
use factvault.Common.{
  ℕ, suc, zero, ◌+◌, ◌*◌, ◌/◌, ◌%◌, Bool, true, false, not, ◌&&◌, ◌||◌, Option, none, some, List,
  [], ◌∷◌, ◌++◌, Text, lit, text_eq, ℤ, pos, negsuc, ltb, ◌==◌, length, take, if◌then◌else◌, Result,
  ok, err, ◌>>=◌,
}
use factvault.Strings.{trim_space, join, trim_prefix?}
use factvault.Db.{
  Source, SourceStatus, collected, archived, extracted, verified, link_rot, content_changed, Vault,
}
use factvault.Rows.{Env, hex}
use factvault.Extract.{effective_limit}
use factvault.Network.{NetPackages}
use factvault.Network
use factvault.Pipeline.Html.{strip_html}

pub data Error : Type 0 where
  collect_failed compress_failed decompress_failed invalid_tenant update_refused : Error

-- A source that a collector found.
pub record Item : Type 0 where
  pub url : Text
  pub html : Text
  pub title : Text
  pub publisher : Text
  pub topic : Text
  pub tags : List Text

-- What came back for an HTTP request: the error's text, or the status and the body, of which at
-- most the number of bytes asked for is read.
pub data Fetched : Type 0 where
  failed : Text → Fetched
  replied : ℕ → (ℕ → Result Text Text) → Fetched

-- The HTTP client, zlib, the network, and the database: the UUID that a text is, the rows that the
-- table's constraints refuse, and the texts that a column can hold. `inflate` reads at most the
-- number of bytes asked for. `submit` is the status and the Content-Location of the Wayback
-- Machine's answer. `new_request` is the error of a request that cannot be made, and `error_text`
-- the text of the guard's error for a URL.
pub record World : Type 0 where
  pub deflate : Text → Option Text
  pub inflate : ℕ → Text → Option Text
  pub max_decompress : Option ℤ
  pub net : NetPackages
  pub error_text : Text → Network.Error → Text
  pub new_request : Text → Option Text
  pub fetch : Text → Fetched
  pub submit : Text → Option (ℕ × Text)
  pub scan_uuid : Text → Option ℕ
  pub refuses : Source → Bool
  pub storable : Text → Bool
  pub now : ℕ

-- `NULLIF(x, '')`.
abbrev nullif : Text → Option Text
nullif [] = none
nullif (b ∷ s) = some (b ∷ s)

unfoldable pub publisher_of : Item → Text
publisher_of item =
    let publisher = trim_space item.publisher in
    if text_eq item.topic [] && length item.tags == 0
    then publisher
    else trim_space
        (publisher ++ (lit " topic=" ++ (item.topic ++ (lit " tags=" ++ join item.tags (lit ",")))))

unfoldable pub has_url : ℕ → Text → List Source → Bool
has_url tenant url [] = false
has_url tenant url (s ∷ ss) = (s.tenant_id == tenant && text_eq s.url url) || has_url tenant url ss

unfoldable pub collected_source : Env → ℕ → Item → Text → ℕ → Source
collected_source env tenant item compressed id = record {
  id = id;
  tenant_id = tenant;
  url = item.url;
  content_hash = hex (env.sha256 item.html);
  raw_html = some compressed;
  raw_text = none;
  archive_url = none;
  publisher = nullif (publisher_of item);
  title = nullif item.title;
  last_verified_at = none;
  status = collected;
}

-- The savepoint around the INSERT: a refused row is rolled back, a known URL does nothing. The
-- table stands in the order of `fetched_at`, so a new row is the last.
unfoldable pub insert_source : World → Source → Vault → Vault
insert_source world s v =
    if world.refuses s || has_url s.tenant_id s.url v.sources
    then record v { uuids = v.uuids + 1 }
    else record v { sources = v.sources ++ (s ∷ []); uuids = v.uuids + 1 }

-- One round of the loop of `CollectOnce`.
unfoldable pub collect_item : Env → World → ℕ → Item → Vault → Result Error Vault
collect_item env world tenant item v =
    if text_eq (trim_space item.url) [] || length item.html == 0
    then ok v
    else elim (world.deflate item.html) [
      | none ↦ err compress_failed
      | some compressed ↦ ok (
          insert_source world (collected_source env tenant item compressed (env.new_uuid v.uuids))
            v)
    ]

unfoldable pub collect_items : Env → World → ℕ → List Item → Vault → Result Error Vault
collect_items env world tenant [] v = ok v
collect_items env world tenant (item ∷ items) v =
    collect_item env world tenant item v >>= collect_items env world tenant items

-- `CollectOnce`; the collector answers the items, or an error.
unfoldable pub collect_once : Env → World → ℕ → Option (List Item) → Vault → Result Error Vault
collect_once env world tenant none v = err collect_failed
collect_once env world tenant (some items) v = collect_items env world tenant items v

-- `maxDecompressBytes`: a setting that does not parse, or is not positive, stands for 100 MiB.
abbrev max_decompress_bytes : Option ℤ → ℕ
max_decompress_bytes none = 104857600
max_decompress_bytes (some (pos zero)) = 104857600
max_decompress_bytes (some (pos (suc n))) = suc n
max_decompress_bytes (some (negsuc n)) = 104857600

unfoldable pub decompress : World → Text → Result Error Text
decompress world raw =
    let max = max_decompress_bytes world.max_decompress in
    elim (world.inflate (max + 1) raw) [
      | none ↦ err decompress_failed
      | some out ↦ if ltb max (length out) then err decompress_failed else ok out
    ]

-- `submitWayback`, over the answer to the request.
unfoldable pub submit_wayback : Option (ℕ × Text) → Text
submit_wayback none = []
submit_wayback (some (status, loc)) =
    if ltb status 200 || ltb 299 status
    then []
    else if text_eq loc []
    then []
    else elim (trim_prefix? loc (lit "http")) [
      | some rest ↦ loc
      | none ↦ lit "https://web.archive.org" ++ loc
    ]

-- An UPDATE of the row with this id, among the rows that row-level security shows to the tenant.
unfoldable pub update_source : ℕ → ℕ → (Source → Source) → List Source → List Source
update_source tenant id f [] = []
update_source tenant id f (s ∷ ss) =
    (if s.tenant_id == tenant && s.id == id then f s else s) ∷ update_source tenant id f ss

unfoldable pub is_collected : ℕ → Source → Bool
is_collected tenant s = s.tenant_id == tenant && elim s.status [ collected ↦ true | _ ↦ false ]

unfoldable pub sources_where : (Source → Bool) → List Source → List Source
sources_where p [] = []
sources_where p (s ∷ ss) = let rest = sources_where p ss in if p s then s ∷ rest else rest

-- A NULL column scans as no bytes.
abbrev pub bytes_of : Option Text → Text
bytes_of none = []
bytes_of (some b) = b

abbrev pub archive_update : Text → Text → Source → Source
archive_update text archive_url s = record s {
  raw_text = some text;
  archive_url = some archive_url;
  status = archived;
}

-- The `UPDATE` of one source, which the database refuses if it cannot hold one of the texts.
unfoldable pub write_archive :
    World → ℕ → Source → Text → Text → List Source → Result Error (List Source)
write_archive world tenant item text archive_url ss =
    if not (world.storable text && world.storable archive_url)
    then err update_refused
    else ok (update_source tenant item.id (archive_update text archive_url) ss)

-- One round of the loop of `ArchiveOnce`.
unfoldable pub archive_source : World → ℕ → Source → List Source → Result Error (List Source)
archive_source world tenant item ss = do
  html ← decompress world (bytes_of item.raw_html)
  write_archive world tenant item (strip_html html) (submit_wayback (world.submit item.url)) ss

unfoldable pub archive_sources : World → ℕ → List Source → List Source → Result Error (List Source)
archive_sources world tenant [] ss = ok ss
archive_sources world tenant (item ∷ items) ss =
    archive_source world tenant item ss >>= archive_sources world tenant items

-- The transaction of `ArchiveOnce`: an error keeps nothing.
unfoldable pub archive_tenant : World → ℕ → ℤ → Vault → Result Error Vault
archive_tenant world tenant limit v = do
  ss ←
      archive_sources world tenant
        (take (effective_limit limit) (sources_where (is_collected tenant) v.sources)) v.sources
  ok (record v { sources = ss })

-- `ArchiveOnce`, for the text of a tenant's id.
unfoldable pub archive_once : World → Text → ℤ → Vault → Result Error Vault
archive_once world tenant_id limit v = elim (world.scan_uuid tenant_id) [
  | none ↦ err invalid_tenant
  | some tenant ↦ archive_tenant world tenant limit v
]
