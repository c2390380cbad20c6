-- ===== src/Research/Collector.antt =====
-- internal/research/research.go: `SearchCollector`. `requested` records the pages that are asked
-- for; the program keeps no such list.
pub mod Bounded
pub mod Requests
use factvault.Common.{
  ℕ, ◌+◌, ◌-◌, ◌*◌, Bool, true, false, not, Option, none, some, List, [], ◌∷◌, ◌++◌, Text, lit,
  text_eq, ltb, length, take, drop, ℤ, pos, negsuc, leb_ℤ, if◌then◌else◌, Result, ok, err, ◌>>=◌,
}
use factvault.Strings.{Unicode, to_lower, trim_space, index}
use factvault.Excerpt.{slice}
use factvault.Pipeline.{Item, Fetched, failed, replied}
use factvault.Research.{Failure, panicked, trim_slashes, is_success}

-- HTTP and JSON: the addresses that a search finds, if its answer can be read, and a page.
pub record Web : Type 0 where
  pub find : Text → Option (List Text)
  pub get : Text → Fetched
  pub query_escape : Text → Text

pub record SearchCollector : Type 0 where
  pub queries : List Text
  pub results_per_query : ℤ
  pub max_total_fetches : ℤ
  pub search_url : Text

unfoldable pub search_base : SearchCollector → Text
search_base s =
    if text_eq s.search_url []
    then lit "https://searxng.petersimmons.com"
    else trim_slashes s.search_url

unfoldable pub result_limit : ℤ → ℕ
result_limit (pos n) = if ltb 0 n then n else 5
result_limit (negsuc n) = 5

unfoldable pub nonempty_urls : List Text → List Text
nonempty_urls [] = []
nonempty_urls (u ∷ us) = let rest = nonempty_urls us in if text_eq u [] then rest else u ∷ rest

-- `search`, which stops after so many results.
unfoldable pub search : Web → SearchCollector → Text → Option (List Text)
search web s query =
    elim (web.find
      (search_base s ++ (lit "/search?q=" ++ (web.query_escape query ++ lit "&format=json")))) [
        | none ↦ none
        | some urls ↦ some (nonempty_urls (take (result_limit s.results_per_query) urls))
      ]

unfoldable pub extract_title : Unicode → Text → Result Failure Text
extract_title u html = elim (index (to_lower u html) (lit "<title>")) [
  | none ↦ ok []
  | some start ↦ elim (index (drop (start + 7) (to_lower u html)) (lit "</title>")) [
    | none ↦ ok []
    | some end ↦
        if ltb (length html) (start + 7 + end)
        then err panicked
        else ok (trim_space (slice html (start + 7) (start + 7 + end)))
  ]
]

abbrev max_fetch_body_bytes : ℕ
max_fetch_body_bytes = 5 * 1024 * 1024

-- The page with its title; `none` is the error of `fetchPage`.
unfoldable pub fetch_page : Unicode → Web → Text → Result Failure (Option (Text × Text))
fetch_page u web url = elim (web.get url) [
  | failed reason ↦ ok none
  | replied status read ↦
      if not (is_success status) then ok none else elim (read (max_fetch_body_bytes + 1)) [
        | err reason ↦ ok none
        | ok body ↦
            if ltb max_fetch_body_bytes (length body)
            then ok none
            else extract_title u body >>= λ title. ok (some (body, title))
      ]
]

pub record Progress : Type 0 where
  pub fetched : ℕ
  pub items : List Item
  pub requested : List Text

unfoldable pub item_of : Text → Text × Text → Item
item_of url page = record {
  url = url;
  html = page.0;
  title = page.1;
  publisher = [];
  topic = [];
  tags = [];
}

-- What one page does to the counter and the items.
unfoldable pub note_page : Progress → Text → Option (Text × Text) → Progress
note_page p url none = record p { requested = p.requested ++ (url ∷ []) }
note_page p url (some page) = record {
  fetched = p.fetched + 1;
  items = p.items ++ (item_of url page ∷ []);
  requested = p.requested ++ (url ∷ []);
}

module _ (u : Unicode) (web : Web) (s : SearchCollector) where
  unfoldable pub collect_urls : Progress → List Text → Result Failure Progress
  collect_urls p [] = ok p
  collect_urls p (url ∷ urls) =
      if leb_ℤ s.max_total_fetches (pos p.fetched)
      then ok p
      else fetch_page u web url >>= λ page. collect_urls (note_page p url page) urls

  unfoldable pub collect_queries : Progress → List Text → Result Failure Progress
  collect_queries p [] = ok p
  collect_queries p (q ∷ qs) =
      if leb_ℤ s.max_total_fetches (pos p.fetched) then ok p else elim (search web s q) [
        | none ↦ collect_queries p qs
        | some urls ↦ collect_urls p urls >>= λ after. collect_queries after qs
      ]

  -- `Collect`.
  unfoldable pub collect : Result Failure Progress
  collect = collect_queries (record { fetched = 0; items = []; requested = [] }) s.queries
