-- ===== src/Extract/Links.antt =====
-- How many links the statements have that the worker writes.
use factvault.Common.{
  ℕ, suc, ◌≤◌, ◌<◌, ◌≡◌, ◌∙◌, sym, refl, inl, inr, Bool, true, false, List, [], ◌∷◌, arith, Text, ℤ,
  All, All-map, Bool-cases, if◌then◌else◌, ◌==◌, ==_iff,
}
use mathlib.Core.Path.{subst}
use factvault.Db.{Vault, Source, Statement, StatementSource}
use factvault.Extractors.{ExtractedFact}
use factvault.Rows.{Env}
use factvault.Extract.{FactPipeline, pending_sources, extract_once}
use factvault.Extract.Effect.{Effect}
use factvault.Extract.Runs.{Keeping, KeepingAll, extract_once_inv}

-- How many links refer to a statement.
unfoldable pub links_of : ℕ → List StatementSource → ℕ
links_of id [] = 0
links_of id (l ∷ ls) = let rest = links_of id ls in if l.statement_id == id then suc rest else rest

-- An identifier that was drawn before the n-th one.
pub record DrawnBefore (env : Env) (n id : ℕ) : Type 0 where
  pub index : ℕ
  pub before : index < n
  pub drawn : id ≡ env.new_uuid index

-- Identifiers come from the supply, and every statement has exactly one link.
pub record HasSingleLinks (env : Env) (v : Vault) : Type 0 where
  pub statements_drawn : All (λ (s : Statement). DrawnBefore env v.uuids s.id) v.statements
  pub links_drawn :
      All (λ (l : StatementSource). DrawnBefore env v.uuids l.statement_id) v.statement_sources
  pub single : All (λ (s : Statement). links_of s.id v.statement_sources ≡ 1) v.statements

drawn_later : (env : Env) (m n id : ℕ) → m ≤ n → DrawnBefore env m id → DrawnBefore env n id
drawn_later env m n id h d = record { index = d.index; before = omega arith; drawn = d.drawn }

module _ (env : Env) (fresh : (i j : ℕ) → env.new_uuid i ≡ env.new_uuid j → i ≡ j) where
  drawn_ne : (n k id : ℕ) → n ≤ k → DrawnBefore env n id → (env.new_uuid k == id) ≡ false
  drawn_ne n k id h d = elim (Bool-cases (env.new_uuid k == id)) [
    | inl e ↦
        absurd
          (omega (arith, fresh k d.index ((==_iff (env.new_uuid k) id).0 e ∙ d.drawn), d.before))
    | inr e ↦ e
  ]

  links_of_new :
      (n k : ℕ) (ls : List StatementSource)
      → n ≤ k
      → All (λ (l : StatementSource). DrawnBefore env n l.statement_id) ls
      → links_of (env.new_uuid k) ls ≡ 0
  unfolding links_of
  links_of_new n k [] h d = refl
  links_of_new n k (l ∷ ls) h d =
      ground (arith, drawn_ne n k l.statement_id h d.0, links_of_new n k ls h d.1)

  -- A link to a statement drawn later does not count for the earlier ones.
  single_kept :
      (n k : ℕ) (l : StatementSource) (ls : List StatementSource) (ss : List Statement)
      → n ≤ k
      → l.statement_id ≡ env.new_uuid k
      → All (λ (s : Statement). DrawnBefore env n s.id) ss
      → All (λ (s : Statement). links_of s.id ls ≡ 1) ss
      → All (λ (s : Statement). links_of s.id (l ∷ ls) ≡ 1) ss
  unfolding links_of
  single_kept n k l ls [] h e d o = tt
  single_kept n k l ls (s ∷ ss) h e d o =
      (ground (arith, drawn_ne n k s.id h d.0), single_kept n k l ls ss h e d.1 o.1)

  inserts_keep :
      (tenant id : ℕ) (fact : ExtractedFact) (v : Vault) (r : Bool × Vault)
      → Effect env tenant id fact v r
      → HasSingleLinks env v
      → HasSingleLinks env r.1
  inserts_keep tenant id fact v (false, w) e h = record {
    statements_drawn =
        subst (All (λ (s : Statement). DrawnBefore env w.uuids s.id)) (sym e.statements) (
          All-map _ _ (λ s. drawn_later env v.uuids w.uuids s.id e.uuids) v.statements
            h.statements_drawn);
    links_drawn =
        subst (All (λ (l : StatementSource). DrawnBefore env w.uuids l.statement_id)) (sym e.links)
          (All-map _ _ (λ l. drawn_later env v.uuids w.uuids l.statement_id e.uuids)
            v.statement_sources h.links_drawn);
    single = rw (e.statements, e.links) h.single;
  }
  inserts_keep tenant id fact v (true, w) e h =
      let grown : v.uuids ≤ w.uuids = omega arith in
      record {
        statements_drawn =
            subst (All (λ (s : Statement). DrawnBefore env w.uuids s.id)) (sym e.statements) (
              record { index = e.drawn; before = e.drawn_before; drawn = e.statement_id },
              All-map _ _ (λ s. drawn_later env v.uuids w.uuids s.id grown) v.statements
                  h.statements_drawn,
            );
        links_drawn =
            subst (All (λ (l : StatementSource). DrawnBefore env w.uuids l.statement_id))
              (sym e.links)
              (
                record { index = e.drawn; before = e.drawn_before; drawn = e.link_id },
                All-map _ _ (λ l. drawn_later env v.uuids w.uuids l.statement_id grown)
                    v.statement_sources h.links_drawn,
              );
        single =
            subst
              (λ (ls : List StatementSource).
                All (λ (s : Statement). links_of s.id ls ≡ 1) w.statements)
              (sym e.links)
              (subst (All (λ (s : Statement). links_of s.id (e.link ∷ v.statement_sources) ≡ 1))
                (sym e.statements)
                (
                  new_single e.statement.id e.link v.statement_sources
                      (e.link_id ∙ sym e.statement_id)
                      (rw e.statement_id (
                        links_of_new v.uuids e.drawn v.statement_sources e.drawn_after
                          h.links_drawn)),
                  single_kept v.uuids e.drawn e.link v.statement_sources v.statements e.drawn_after
                      e.link_id h.statements_drawn h.single,
                ));
      }
    where
      new_single :
          (x : ℕ) (l : StatementSource) (ls : List StatementSource)
          → l.statement_id ≡ x
          → links_of x ls ≡ 0
          → links_of x (l ∷ ls) ≡ 1
      new_single x l ls p q = unfold links_of in ground arith

  keeping : (tenant id : ℕ) (raw_text : Text) → Keeping env (HasSingleLinks env) tenant id raw_text
  keeping tenant id raw_text = record {
    inserts = λ fact v r _ e h. inserts_keep tenant id fact v r e h;
    marks = λ v h. record {
      statements_drawn = h.statements_drawn;
      links_drawn = h.links_drawn;
      single = h.single;
    };
  }

  keeping_all : (t : ℕ) (ss : List Source) → KeepingAll env (HasSingleLinks env) t ss
  keeping_all t [] = tt
  keeping_all t (s ∷ ss) = (λ r e. keeping t s.id r, keeping_all t ss)

  -- Where no UUID is drawn twice: if before a run of `ExtractOnce` every statement had exactly one
  -- link, and the ids of statements and links had been drawn, the same holds after it. A source that
  -- states a known fact again gets no link.
  pub extract_once-HasSingleLinks :
      (p : FactPipeline) (tenant_id : Text) (limit : ℤ) (v : Vault)
      → HasSingleLinks env v
      → HasSingleLinks env (extract_once env p tenant_id limit v).0
  extract_once-HasSingleLinks p tenant_id limit v h =
      extract_once_inv env (HasSingleLinks env) p tenant_id limit v
        (λ t. keeping_all t (pending_sources t v.sources)) h
