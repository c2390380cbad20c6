-- ===== src/Examples/Weights.antt =====
-- The corroboration worker on one statement with one link.
use factvault.Common.{◌≡◌, refl, true, none, some, [], ◌∷◌, lit, pos, arith, ok, text_eq}
use factvault.Strings.{ascii}
use factvault.Db.{Vault, extracted, val_text}
use factvault.Rows.{Env}
use factvault.Corroborate.Worker.{
  Parsers, select_evidence, reweigh_all, corroborate_tenant, corroborate_once,
}
use factvault.Corroborate.Worker.Single.{AtMostHalf, corroborate_once-AtMostHalf}
use factvault.Extract.Links.{HasSingleLinks, links_of}

abbrev env : Env
env = record {
  unicode = ascii;
  sha256 = λ t. t;
  new_uuid = λ n. n;
  cast_number = λ t. some t;
  cast_date = λ t. some t;
  cast_uuid = λ t. some 7;
}

abbrev parsers : Parsers
parsers = record {
  unicode = ascii;
  hostname = λ url. none;
  uuid_text = λ n. n ∷ [];
  cast_uuid = λ t. some 7;
}

abbrev vault : Vault
vault = record {
  sources =
      record {
        id = 1;
        tenant_id = 7;
        url = lit "https://example.com";
        content_hash = lit "h";
        raw_html = none;
        raw_text = some (lit "DOI 10.1000/x");
        archive_url = none;
        publisher = none;
        title = none;
        last_verified_at = none;
        status = extracted;
      }
      ∷ [];
  entities = [];
  properties = [];
  proposed = [];
  statements =
      record {
        id = 0;
        tenant_id = 7;
        subject_id = 5;
        property_id = 6;
        value = val_text (lit "10.1000/x");
        confidence = 900;
      }
      ∷ [];
  statement_sources =
      record {
        id = 1;
        statement_id = 0;
        source_id = 1;
        excerpt = lit "DOI 10.1000/x";
        excerpt_offset_start = pos 0;
        excerpt_offset_end = pos 13;
        extraction_method = lit "regex:identifiers-v1";
        confidence = 900;
        tenant_id = 7;
      }
      ∷ [];
  uuids = 2;
}

abbrev reweighed : Vault
reweighed = record vault {
  statements = reweigh_all parsers 7 (select_evidence parsers 7 vault) vault.statements;
}

vault-HasSingleLinks : HasSingleLinks env vault
unfolding links_of
vault-HasSingleLinks = record {
  statements_drawn = (record { index = 0; before = omega arith; drawn = refl }, tt);
  links_drawn = (record { index = 0; before = omega arith; drawn = refl }, tt);
  single = (refl, tt);
}

reweighed_now : corroborate_once parsers true (lit "t") vault ≡ ok reweighed
unfolding corroborate_once corroborate_tenant text_eq
reweighed_now = refl

corroborate_once-AtMostHalf_example : AtMostHalf vault.statements reweighed.statements
unfolding reweigh_all
corroborate_once-AtMostHalf_example =
    corroborate_once-AtMostHalf env parsers true (lit "t") vault reweighed vault-HasSingleLinks
      reweighed_now
