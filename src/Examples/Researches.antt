-- ===== src/Examples/Researches.antt =====
-- A search that is answered, one that is not, and the queries for an entity.
use factvault.Common.{◌≤◌, ◌≡◌, refl, some, [], ◌∷◌, Text, lit, text_eq, pos, length, ok, All}
use factvault.Strings.{Unicode}
use factvault.Strings
use factvault.Utf8
use factvault.Pipeline.{failed, replied}
use factvault.Research.{Llm, LlmConfig, SeedEntity, Caps}
use factvault.Research
use factvault.Research.Collector.{Web, SearchCollector, Progress, collect, fetch_page}
use factvault.Research.Collector
use factvault.Research.Collector.Bounded.{IsFetched, IsFound, collect-IsBounded}
use factvault.Research.Collector.Requests.{found_urls, collect_failing}
use factvault.Examples.Gazetteers.{letters}

abbrev page : Text
page = lit "<TITLE> T </TITLE>"

abbrev web : Web
web = record {
  find = λ address. some (lit "a" ∷ lit "b" ∷ []);
  get = λ url. replied 200 (λ n. ok page);
  query_escape = λ q. q;
}

abbrev collector : SearchCollector
collector = record {
  queries = lit "q" ∷ lit "r" ∷ [];
  results_per_query = pos 2;
  max_total_fetches = pos 1;
  search_url = lit "s/";
}

abbrev after : Progress
after = record {
  fetched = 1;
  items =
      record { url = lit "a"; html = page; title = lit "T"; publisher = []; topic = []; tags = [] }
      ∷ [];
  requested = lit "a" ∷ [];
}

collected_now : collect letters web collector ≡ ok after
unfolding collect Collector.collect_queries Collector.collect_urls Collector.search
    Collector.search_base Collector.result_limit Collector.nonempty_urls Collector.extract_title
    Collector.fetch_page Collector.item_of Collector.note_page Research.is_success
    Research.trim_slashes Strings.index Strings.trim_prefix? Strings.to_lower Strings.decode
    Strings.encode Strings.decode_rune Strings.encode_rune Strings.trim_space Strings.trim_left
    Strings.trim_right Strings.keep_before Strings.is_space Utf8.runes Utf8.split Utf8.rune_width
    text_eq
collected_now = refl

collect-IsBounded_example :
    (length after.items ≤ 1)
    × All (IsFetched letters web collector) after.items
    × All (λ i. IsFound letters web collector collector.queries i.url) after.items
collect-IsBounded_example = collect-IsBounded letters web collector after collected_now

abbrev dead_web : Web
dead_web = record {
  find = λ address. some (lit "a" ∷ lit "b" ∷ []);
  get = λ url. failed [];
  query_escape = λ q. q;
}

collect_failing_example :
    collect letters dead_web collector
    ≡ ok (record {
      fetched = 0;
      items = [];
      requested = found_urls dead_web collector collector.queries;
    })
unfolding fetch_page
collect_failing_example = collect_failing letters dead_web collector (λ url. refl) refl

abbrev llm : Llm
llm = record {
  respond = λ r. some (200, some (lit "body"));
  parse_choices = λ t. some (lit "content" ∷ []);
  parse_perspectives = λ t. some (lit "p" ∷ lit "q" ∷ []);
  parse_items = λ t.
      some (record { perspective = lit "p"; queries = lit "The X" ∷ lit "x" ∷ lit "y" ∷ [] } ∷ []);
  quote = λ t. t;
  decimal = λ n. [];
}

abbrev config : LlmConfig
config = record { base_url = lit "u"; api_key = []; model = lit "m" }

abbrev entity : SeedEntity
entity = record { label = lit "Rome"; entity_type = lit "City" }

abbrev caps : Caps
caps = record { perspectives = pos 1; questions_per_perspective = pos 2 }
