-- ===== src/Briefs/Store/Listed.antt =====
-- internal/briefs/briefs.go: which briefs `List` returns, and in which order.
use factvault.Common.{
  ℕ, ◌≤◌, true, false, List, map, ◌≡◌, refl, sym, subst, ◌⊎◌, inl, inr, arith, ok, ◌==◌, ℤ, pos,
  negsuc, take, length, length-take, All, In, All_weaken, IsSort, IsSorted, SortPackage,
  IsWeakOrder, IsFiltered, In-filtered_iff, In_perm, take_In, take-IsSorted, front_full, Bool-cases,
}
use mathlib.Core.List.Permᴰ
use factvault.Assembler.Graph.{UuidCast}
use factvault.Briefs.Store.{
  Brief, BriefRow, BriefDb, ListOptions, brief_of, is_listed, listed_rows, newer, list_briefs,
  is_castable,
}

newer-IsWeakOrder : IsWeakOrder newer
unfolding newer
newer-IsWeakOrder = record {
  asymmetric = λ x y h. ground arith;
  incomparable = λ x y z h k. ground arith;
}

listed_rows-IsFiltered :
    (c : UuidCast) (tenant : ℕ) (opts : ListOptions)
    → IsFiltered (is_listed c tenant opts) (λ (r : BriefRow). r) (listed_rows c tenant opts)
unfolding listed_rows
listed_rows-IsFiltered c tenant opts = record { on_nil = refl; on_cons = λ r rs. refl }

-- A page of the tenant's rows that meet the filters: at most so many, the newest first, and of
-- those that are left out none is newer than one that is there.
pub record IsPage (c : UuidCast) (db : BriefDb) (tenant : ℕ) (opts : ListOptions) (n : ℕ)
    (rows : List BriefRow) : Type 0 where
  few : length rows ≤ n
  ordered : IsSorted newer rows
  matching :
      (r : BriefRow)
      → In r rows
      → In r db.briefs × (r.tenant_id ≡ tenant) × (is_listed c tenant opts r ≡ true)
  newest :
      (r : BriefRow)
      → In r db.briefs
      → is_listed c tenant opts r ≡ true
      → In r rows ⊎ ((length rows ≡ n) × All (λ s. r.created_at ≤ s.created_at) rows)

listed-tenant :
    (c : UuidCast) (tenant : ℕ) (opts : ListOptions) (r : BriefRow)
    → is_listed c tenant opts r ≡ true
    → r.tenant_id ≡ tenant
unfolding is_listed
listed-tenant c tenant opts r h = elim (Bool-cases (r.tenant_id == tenant)) [
  | inl same ↦ ground arith
  | inr apart ↦ absurd (ground arith)
]

IsPage-take :
    (c : UuidCast) (p : SortPackage) (db : BriefDb) (tenant : ℕ) (opts : ListOptions) (n : ℕ)
    → IsSort p
    → IsPage c db tenant opts n (take n (p.sort_slice newer (listed_rows c tenant opts db.briefs)))
unfolding newer
IsPage-take c p db tenant opts n sort =
    let kept = listed_rows c tenant opts db.briefs in
    let sorted = p.sort_slice newer kept in
    let order = sort.sorts newer kept newer-IsWeakOrder in
    let perm = sort.permutes newer kept in
    let filtered = λ (r : BriefRow).
      In-filtered_iff (is_listed c tenant opts) (λ (r : BriefRow). r) r (listed_rows c tenant opts)
        (listed_rows-IsFiltered c tenant opts) db.briefs in
    record {
      few = ground (arith, length-take n sorted);
      ordered = take-IsSorted newer n sorted order;
      matching = λ r m.
          (let (s, in_s, meets, e) = (filtered r).0 (In_perm r _ _ perm (take_In n r sorted m)) in
            (
              subst (λ z. In z db.briefs) (sym e) in_s,
              listed-tenant c tenant opts r
                  (subst (λ z. is_listed c tenant opts z ≡ true) (sym e) meets),
              subst (λ z. is_listed c tenant opts z ≡ true) (sym e) meets,
            ));
      newest = λ r m meets.
          elim (front_full newer n r sorted order
            (In_perm r _ _ (Permᴰ.symm perm) ((filtered r).1 (r, m, meets, refl)))) [
              | inl inside ↦ inl inside
              | inr (full, before) ↦ inr (
                full,
                All_weaken (λ y. newer r y ≡ false) (λ y. r.created_at ≤ y.created_at)
                    (λ y h. ground arith) _ before,
              )
            ];
    }

-- `List` returns a page: rows of the caller's tenant only, that meet the filters, at most the
-- limit, newest first, and without a row of those only where the page is full of rows that are no
-- older.
pub list_briefs-IsPage :
    (c : UuidCast) (p : SortPackage) (db : BriefDb) (tenant : ℕ) (opts : ListOptions)
    (bs : List Brief)
    → IsSort p
    → list_briefs c p db tenant opts ≡ ok bs
    → (n : ℕ) × (rows : List BriefRow) × (opts.limit ≡ pos n)
      × (bs ≡ map (brief_of c) rows)
      × IsPage c db tenant opts n rows
unfolding list_briefs
list_briefs-IsPage c p db tenant opts bs sort h = elim (Bool-cases (is_castable c opts.entity_id)) [
  | inr bad ↦ absurd (ground arith)
  | inl good ↦ by_limit opts.limit refl
]
  where
    by_limit :
        (l : ℤ)
        → opts.limit ≡ l
        → (n : ℕ) × (rows : List BriefRow) × (opts.limit ≡ pos n)
          × (bs ≡ map (brief_of c) rows)
          × IsPage c db tenant opts n rows
    by_limit (pos n) e = (
      n,
      take n (p.sort_slice newer (listed_rows c tenant opts db.briefs)),
      e,
      ground arith,
      IsPage-take c p db tenant opts n sort,
    )
    by_limit (negsuc n) e = absurd (ground arith)
