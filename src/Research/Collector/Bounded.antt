-- ===== src/Research/Collector/Bounded.antt =====
-- internal/research/research.go: what `Collect` returns.
use factvault.Common.{
  ℕ, ◌+◌, ◌≤◌, false, Option, none, some, List, [], ◌∷◌, Text, length, length-append, ◌≡◌, refl,
  subst, ok-injective, All_of_In, inl, inr, arith, ℤ, pos, negsuc, leb_ℤ, All, All-append, In, ok,
  Bool-cases, Option-cases, Result-cases,
}
use factvault.Strings.{Unicode}
use factvault.Pipeline.{Item}
use factvault.Research.Collector.{
  Web, SearchCollector, search, fetch_page, Progress, item_of, note_page, collect_urls,
  collect_queries, collect,
}

-- The bound of the counter; a negative one admits nothing.
abbrev pub ceiling : ℤ → ℕ
ceiling (pos n) = n
ceiling (negsuc n) = 0

module _ (u : Unicode) (web : Web) (s : SearchCollector) where
  -- A search for one of the queries found the address.
  abbrev pub IsFound : List Text → Text → Type 0
  IsFound queries url =
      (q : Text) × (urls : List Text) × In q queries × (search web s q ≡ some urls) × In url urls

  -- The item is the page that its address answers.
  abbrev pub IsFetched : Item → Type 0
  IsFetched i = fetch_page u web i.url ≡ ok (some (i.html, i.title))

  record IsCounted (p : Progress) : Type 0 where
    counted : length p.items ≡ p.fetched
    capped : p.fetched ≤ ceiling s.max_total_fetches
    fetched_items : All IsFetched p.items
    found_items : All (λ i. IsFound s.queries i.url) p.items

  below_ceiling :
      (max : ℤ) (fetched : ℕ) → leb_ℤ max (pos fetched) ≡ false → fetched + 1 ≤ ceiling max
  below_ceiling (pos n) fetched h = ground arith
  below_ceiling (negsuc n) fetched h = ground arith

  note_page-IsCounted :
      (p : Progress) (url : Text) (page : Option (Text × Text))
      → leb_ℤ s.max_total_fetches (pos p.fetched) ≡ false
      → fetch_page u web url ≡ ok page
      → IsFound s.queries url
      → IsCounted p
      → IsCounted (note_page p url page)
  unfolding note_page item_of
  note_page-IsCounted p url none room fetched found h = record {
    counted = h.counted;
    capped = h.capped;
    fetched_items = h.fetched_items;
    found_items = h.found_items;
  }
  note_page-IsCounted p url (some page) room fetched found h = record {
    counted = ground (arith, length-append p.items (item_of url page ∷ []), h.counted);
    capped = below_ceiling s.max_total_fetches p.fetched room;
    fetched_items =
        All-append IsFetched p.items (item_of url page ∷ []) h.fetched_items (fetched, tt);
    found_items =
        All-append (λ i. IsFound s.queries i.url) p.items (item_of url page ∷ []) h.found_items
          (found, tt);
  }

  collect_urls-IsCounted :
      (p after : Progress) (urls : List Text)
      → All (IsFound s.queries) urls
      → IsCounted p
      → collect_urls u web s p urls ≡ ok after
      → IsCounted after
  unfolding collect_urls
  collect_urls-IsCounted p after [] found h done =
      subst IsCounted {x = p} {y = after} (ok-injective done) h
  collect_urls-IsCounted p after (url ∷ urls) found h done =
      elim (Bool-cases (leb_ℤ s.max_total_fetches (pos p.fetched))) [
        | inl full ↦ subst IsCounted {x = p} {y = after} (ground arith) h
        | inr room ↦ elim (Result-cases (fetch_page u web url)) [
          | inr (fault, bad) ↦ absurd (ground arith)
          | inl (page, good) ↦
              collect_urls-IsCounted (note_page p url page) after urls found.1
                (note_page-IsCounted p url page room good found.0 h) (ground arith)
        ]
      ]

  collect_queries-IsCounted :
      (p after : Progress) (qs : List Text)
      → All (λ q. In q s.queries) qs
      → IsCounted p
      → collect_queries u web s p qs ≡ ok after
      → IsCounted after
  unfolding collect_queries
  collect_queries-IsCounted p after [] known h done =
      subst IsCounted {x = p} {y = after} (ok-injective done) h
  collect_queries-IsCounted p after (q ∷ qs) known h done =
      elim (Bool-cases (leb_ℤ s.max_total_fetches (pos p.fetched))) [
        | inl full ↦ subst IsCounted {x = p} {y = after} (ground arith) h
        | inr room ↦ elim (Option-cases (search web s q)) [
          | inl failed ↦ collect_queries-IsCounted p after qs known.1 h (ground arith)
          | inr (urls, answered) ↦ elim (Result-cases (collect_urls u web s p urls)) [
            | inr (fault, bad) ↦ absurd (ground arith)
            | inl (next, good) ↦
                collect_queries-IsCounted next after qs known.1
                  (collect_urls-IsCounted p next urls
                    (All_of_In urls (λ url m. (q, urls, known.0, answered, m))) h good)
                  (ground arith)
          ]
        ]
      ]

-- Where `Collect` returns, it returns no more items than the bound of the fetches, none at all for
-- a bound that is not positive, and each item is the page, with its title, that an address answers
-- which a search for one of the queries found.
pub collect-IsBounded :
    (u : Unicode) (web : Web) (s : SearchCollector) (after : Progress)
    → collect u web s ≡ ok after
    → (length after.items ≤ ceiling s.max_total_fetches)
      × All (IsFetched u web s) after.items
      × All (λ i. IsFound u web s s.queries i.url) after.items
unfolding collect
collect-IsBounded u web s after done =
    let start : Progress = record { fetched = 0; items = []; requested = [] } in
    let h =
      collect_queries-IsCounted u web s start after s.queries (All_of_In s.queries (λ q m. m))
        (record { counted = refl; capped = omega arith; fetched_items = tt; found_items = tt })
        done in
    (omega (arith, h.counted, h.capped), h.fetched_items, h.found_items)
