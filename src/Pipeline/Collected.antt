-- ===== src/Pipeline/Collected.antt =====
-- What collecting adds to `sources`.
use factvault.Common.{
  ℕ, ◌≡◌, ◌∙◌, sym, refl, ap, false, ◌||◌, ◌&&◌, Option, none, some, List, [], ◌∷◌, ◌++◌, arith,
  Text, text_eq, text_eq_iff, ◌==◌, length, ok, >>=-ok, ok-injective, All, All-append, Bool-cases,
  Option-cases, inl, inr,
}
use mathlib.Core.Path.{subst}
use factvault.Db.{Source, collected, Vault}
use factvault.Strings.{trim_space}
use factvault.Rows.{Env}
use factvault.Pipeline.{
  Item, World, has_url, collected_source, insert_source, collect_item, collect_items, collect_once,
}

-- A row as `CollectOnce` inserts it.
pub record IsFresh (tenant : ℕ) (s : Source) : Type 0 where
  pub tenant_id : s.tenant_id ≡ tenant
  pub status : s.status ≡ collected
  pub raw_text : s.raw_text ≡ none

-- No two rows have the same tenant and URL.
abbrev HasUniqueUrls : List Source → Type 0
HasUniqueUrls [] = Unit
HasUniqueUrls (s ∷ ss) = (has_url s.tenant_id s.url ss ≡ false) × HasUniqueUrls ss

-- The rows that were there come first and are as they were, the others are fresh, and the other
-- tables are as they were.
pub record Extends (tenant : ℕ) (v w : Vault) : Type 0 where
  added : List Source
  pub sources : w.sources ≡ v.sources ++ added
  pub fresh : All (IsFresh tenant) added
  pub statements : w.statements ≡ v.statements
  pub statement_sources : w.statement_sources ≡ v.statement_sources
  pub unique : HasUniqueUrls v.sources → HasUniqueUrls w.sources

has_url-snoc :
    (tenant : ℕ) (url : Text) (ss : List Source) (s : Source)
    → has_url tenant url ss ≡ false
    → (s.tenant_id == tenant && text_eq s.url url) ≡ false
    → has_url tenant url (ss ++ (s ∷ [])) ≡ false
unfolding has_url
has_url-snoc tenant url [] s h n = ground arith
has_url-snoc tenant url (t ∷ ss) s h n = ground (arith, has_url-snoc tenant url ss s)

unique-snoc :
    (ss : List Source) (s : Source)
    → HasUniqueUrls ss
    → has_url s.tenant_id s.url ss ≡ false
    → HasUniqueUrls (ss ++ (s ∷ []))
unfolding has_url
unique-snoc [] s h n = (refl, tt)
unique-snoc (t ∷ ss) s h n = (
  has_url-snoc t.tenant_id t.url ss s h.0
      (ground (arith, text_eq_iff s.url t.url, text_eq_iff t.url s.url)),
  unique-snoc ss s h.1 (ground arith),
)

append_nil : (ss : List Source) → ss ≡ ss ++ []
append_nil [] = refl
append_nil (s ∷ ss) = ap (λ (r : List Source). s ∷ r) (append_nil ss)

append_assoc : (a b c : List Source) → (a ++ b) ++ c ≡ a ++ (b ++ c)
append_assoc [] b c = refl
append_assoc (s ∷ a) b c = ap (λ (r : List Source). s ∷ r) (append_assoc a b c)

Extends-refl :
    (tenant : ℕ) (v w : Vault)
    → w.sources ≡ v.sources
    → w.statements ≡ v.statements
    → w.statement_sources ≡ v.statement_sources
    → Extends tenant v w
Extends-refl tenant v w e f g = record {
  added = [];
  sources = e ∙ append_nil v.sources;
  fresh = tt;
  statements = f;
  statement_sources = g;
  unique = λ h. subst HasUniqueUrls (sym e) h;
}

Extends-trans :
    (tenant : ℕ) (u v w : Vault) → Extends tenant u v → Extends tenant v w → Extends tenant u w
Extends-trans tenant u v w a b = record {
  added = a.added ++ b.added;
  sources =
      b.sources
      ∙ ap (λ (r : List Source). r ++ b.added) a.sources
      ∙ append_assoc u.sources a.added b.added;
  fresh = All-append (IsFresh tenant) a.added b.added a.fresh b.fresh;
  statements = b.statements ∙ a.statements;
  statement_sources = b.statement_sources ∙ a.statement_sources;
  unique = λ h. b.unique (a.unique h);
}

insert_source-Extends :
    (world : World) (tenant : ℕ) (s : Source) (v : Vault)
    → IsFresh tenant s
    → Extends tenant v (insert_source world s v)
unfolding insert_source
insert_source-Extends world tenant s v fresh =
    elim (Bool-cases (world.refuses s || has_url s.tenant_id s.url v.sources)) [
      | inl left_out ↦ rw left_out (Extends-refl tenant v _ refl refl refl)
      | inr new ↦ rw new (record {
        added = s ∷ [];
        sources = refl;
        fresh = (fresh, tt);
        statements = refl;
        statement_sources = refl;
        unique = λ h. unique-snoc v.sources s h (ground arith);
      })
    ]

collect_item-Extends :
    (env : Env) (world : World) (tenant : ℕ) (item : Item) (v w : Vault)
    → collect_item env world tenant item v ≡ ok w
    → Extends tenant v w
unfolding collect_item collected_source
collect_item-Extends env world tenant item v w e =
    elim (Bool-cases (text_eq (trim_space item.url) [] || length item.html == 0)) [
      | inl blank ↦ Extends-refl tenant v w (ground arith) (ground arith) (ground arith)
      | inr whole ↦ elim (Option-cases (world.deflate item.html)) [
        | inl failed ↦ absurd (ground arith)
        | inr (compressed, packed) ↦
            (let s = collected_source env tenant item compressed (env.new_uuid v.uuids) in
              subst (Extends tenant v) (ground arith) (
                insert_source-Extends world tenant s v
                  (record { tenant_id = refl; status = refl; raw_text = refl })))
      ]
    ]

collect_items-Extends :
    (env : Env) (world : World) (tenant : ℕ) (items : List Item) (v w : Vault)
    → collect_items env world tenant items v ≡ ok w
    → Extends tenant v w
unfolding collect_items
collect_items-Extends env world tenant [] v w e =
    subst (Extends tenant v) (ok-injective e) (Extends-refl tenant v v refl refl refl)
collect_items-Extends env world tenant (item ∷ items) v w e =
    let (mid, now, later) =
      >>=-ok (collect_item env world tenant item v) (collect_items env world tenant items) e in
    Extends-trans tenant v mid w (collect_item-Extends env world tenant item v mid now)
      (collect_items-Extends env world tenant items mid w later)

-- A run of `CollectOnce` that returns without an error only adds rows: each is the tenant's, is
-- collected and has no text yet. A known URL is not written again: if no two rows had the same
-- tenant and URL, none have after the run.
pub collect_once-Extends :
    (env : Env) (world : World) (tenant : ℕ) (items : Option (List Item)) (v w : Vault)
    → collect_once env world tenant items v ≡ ok w
    → Extends tenant v w
unfolding collect_once
collect_once-Extends env world tenant none v w e = absurd (ground arith)
collect_once-Extends env world tenant (some items) v w e =
    collect_items-Extends env world tenant items v w e
