-- ===== src/Research/Collector/Requests.antt =====
-- internal/research/research.go: how many pages `Collect` asks for.
use factvault.Common.{
  false, none, some, List, [], ◌∷◌, ◌++◌, Text, ◌≡◌, refl, ap, sym, inl, inr, arith, pos, leb_ℤ, ok,
  Option-cases,
}
use factvault.Strings.{Unicode}
use factvault.Research.Collector.{
  Web, SearchCollector, search, fetch_page, Progress, note_page, collect_urls, collect_queries,
  collect,
}

-- The addresses that the searches find, query by query.
pub found_urls : Web → SearchCollector → List Text → List Text
found_urls web s [] = []
found_urls web s (q ∷ qs) = elim (search web s q) [
  | none ↦ found_urls web s qs
  | some urls ↦ urls ++ found_urls web s qs
]

append_assoc : (xs ys zs : List Text) → (xs ++ ys) ++ zs ≡ xs ++ (ys ++ zs)
append_assoc [] ys zs = refl
append_assoc (x ∷ xs) ys zs = ap (λ l. x ∷ l) (append_assoc xs ys zs)

append_nil : (xs : List Text) → xs ++ [] ≡ xs
append_nil [] = refl
append_nil (x ∷ xs) = ap (λ l. x ∷ l) (append_nil xs)

-- What has been asked for, when nothing was fetched.
abbrev asked : List Text → Progress
asked urls = record { fetched = 0; items = []; requested = urls }

module _ (u : Unicode) (web : Web) (s : SearchCollector)
    (fails : (url : Text) → fetch_page u web url ≡ ok none)
    (room : leb_ℤ s.max_total_fetches (pos 0) ≡ false) where
  collect_urls_failing :
      (before urls : List Text)
      → collect_urls u web s (asked before) urls ≡ ok (asked (before ++ urls))
  unfolding collect_urls note_page
  collect_urls_failing before [] = rw (append_nil before) refl
  collect_urls_failing before (url ∷ urls) =
      rw (room, fails url, sym (append_assoc before (url ∷ []) urls))
        (collect_urls_failing (before ++ (url ∷ [])) urls)

  found_urls-none :
      (q : Text) (qs : List Text)
      → search web s q ≡ none
      → found_urls web s (q ∷ qs) ≡ found_urls web s qs
  unfolding found_urls
  found_urls-none q qs e = ground arith

  found_urls-some :
      (q : Text) (qs urls : List Text)
      → search web s q ≡ some urls
      → found_urls web s (q ∷ qs) ≡ urls ++ found_urls web s qs
  unfolding found_urls
  found_urls-some q qs urls e = ground arith

  collect_queries_failing :
      (before qs : List Text)
      → collect_queries u web s (asked before) qs ≡ ok (asked (before ++ found_urls web s qs))
  unfolding collect_queries
  collect_queries_failing before [] = unfold found_urls in rw (append_nil before) refl
  collect_queries_failing before (q ∷ qs) = elim (Option-cases (search web s q)) [
    | inl failed ↦
        rw (found_urls-none q qs failed, room, failed) (collect_queries_failing before qs)
    | inr (urls, answered) ↦
        rw
          (
            found_urls-some q qs urls answered,
            room,
            answered,
            collect_urls_failing before urls,
            sym (append_assoc before urls (found_urls web s qs)),
          )
          (collect_queries_failing (before ++ urls) qs)
  ]

-- The bound of the fetches does not bound the requests: where it is positive and every fetch fails,
-- `Collect` asks for every page that the searches find, and returns no item.
pub collect_failing :
    (u : Unicode) (web : Web) (s : SearchCollector)
    → ((url : Text) → fetch_page u web url ≡ ok none)
    → leb_ℤ s.max_total_fetches (pos 0) ≡ false
    → collect u web s
      ≡ ok (record { fetched = 0; items = []; requested = found_urls web s s.queries })
unfolding collect
collect_failing u web s fails room = collect_queries_failing u web s fails room [] s.queries
