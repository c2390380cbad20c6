-- ===== src/Feeds.antt =====
-- internal/collectors/: `RSSCollector` of rss.go, the interval of feeds.go, and static.go. The date of
-- an entry is left out.
use factvault.Common.{
  ℕ, ◌+◌, ◌*◌, ◌≤◌, true, false, ◌||◌, Option, none, some, List, [], ◌∷◌, Text, lit, text_eq, ltb,
  length, ℤ, pos, negsuc, if◌then◌else◌, Result, ok, err, ◌≡◌, Bool-cases, inl, inr, refl, arith,
  In, Option-cases, subst, sym,
}
use factvault.Pipeline.{Item}

record FeedSpec : Type 0 where
  url : Text
  tenant_id : Text
  topic : Text
  tags : List Text
  interval : Text
  name : Text

record FeedEntry : Type 0 where
  link : Text
  title : Text
  description : Text
  content : Text

record Feed : Type 0 where
  title : Text
  entries : List (Option FeedEntry)

data Error : Type 0 where
  url_required request_failed read_failed unparsable : Error
  bad_status : ℕ → Error
  too_large : ℕ → Error

-- The answer of a request, of whose body at most the bytes asked for are read; and `gofeed`.
record FeedServer : Type 0 where
  respond : Text → Option (ℕ × (ℕ → Option Text))
  parse_string : Text → Option Feed

-- The interval that is read, if it is one above zero.
interval_or : Option ℤ → ℤ → ℤ
interval_or none default_interval = default_interval
interval_or (some (negsuc n)) default_interval = default_interval
interval_or (some (pos n)) default_interval = if ltb 0 n then pos n else default_interval

-- `PollInterval`, in nanoseconds; `time.ParseDuration` is the parser given.
poll_interval : (Text → Option ℤ) → FeedSpec → ℤ → ℤ
poll_interval parse_duration f default_interval =
    if text_eq f.interval []
    then default_interval
    else interval_or (parse_duration f.interval) default_interval

-- `RSSCollector.Name`.
collector_name : FeedSpec → Text
collector_name spec = if text_eq spec.name [] then lit "rss" else spec.name

abbrev default_max_feed_bytes : ℕ
default_max_feed_bytes = 10 * 1024 * 1024

-- `maxFeedBytes`, from what the setting resolves to.
max_feed_bytes : Option ℤ → ℕ
max_feed_bytes none = default_max_feed_bytes
max_feed_bytes (some (pos n)) = if ltb 0 n then n else default_max_feed_bytes
max_feed_bytes (some (negsuc n)) = default_max_feed_bytes

-- The HTML of an entry: its content, else its description, else its title.
entry_html : FeedEntry → Text
entry_html e =
    let described = if text_eq e.content [] then e.description else e.content in
    if text_eq described [] then e.title else described

entry_item : FeedSpec → Text → FeedEntry → Item
entry_item spec publisher e = record {
  url = e.link;
  html = entry_html e;
  title = e.title;
  publisher = publisher;
  topic = spec.topic;
  tags = spec.tags;
}

feed_items : FeedSpec → Text → List (Option FeedEntry) → List Item
feed_items spec publisher [] = []
feed_items spec publisher (none ∷ entries) = feed_items spec publisher entries
feed_items spec publisher (some e ∷ entries) =
    let rest = feed_items spec publisher entries in
    if text_eq e.link [] then rest else entry_item spec publisher e ∷ rest

module _ (s : FeedServer) (max_bytes : ℕ) (spec : FeedSpec) where
  parse_feed : Text → Result Error (List Item)
  parse_feed body = elim (s.parse_string body) [
    | none ↦ err unparsable
    | some feed ↦ ok (feed_items spec feed.title feed.entries)
  ]

  read_feed : ℕ → (ℕ → Option Text) → Result Error (List Item)
  read_feed status read =
      if ltb status 200 || ltb 299 status
      then err (bad_status status)
      else elim (read (max_bytes + 1)) [
        | none ↦ err read_failed
        | some body ↦
            if ltb max_bytes (length body) then err (too_large max_bytes) else parse_feed body
      ]

  -- `RSSCollector.Collect`.
  rss_collect : Result Error (List Item)
  rss_collect = if text_eq spec.url [] then err url_required else elim (s.respond spec.url) [
    | none ↦ err request_failed
    | some (status, read) ↦ read_feed status read
  ]

record StaticCollector : Type 0 where
  name : Text
  items : List Item

-- `StaticCollector.Collect`.
static_collect : StaticCollector → List Item
static_collect c = c.items

interval_or_positive :
    (o : Option ℤ) (n : ℕ) → 1 ≤ n → (m : ℕ) × (interval_or o (pos n) ≡ pos m) × (1 ≤ m)
unfolding interval_or
interval_or_positive none n h = (n, refl, h)
interval_or_positive (some (negsuc d)) n h = (n, refl, h)
interval_or_positive (some (pos d)) n h = elim (Bool-cases (ltb 0 d)) [
  | inl above ↦ (d, ground arith, ground arith)
  | inr below ↦ (n, ground arith, h)
]

-- Where the interval given for want of another is above zero, so is the one that is polled at.
poll_interval_positive :
    (parse_duration : Text → Option ℤ) (f : FeedSpec) (n : ℕ)
    → 1 ≤ n
    → (m : ℕ) × (poll_interval parse_duration f (pos n) ≡ pos m) × (1 ≤ m)
unfolding poll_interval
poll_interval_positive parse_duration f n h = elim (Bool-cases (text_eq f.interval [])) [
  | inl blank ↦ (n, ground arith, h)
  | inr given ↦
      (let (m, e, above) = interval_or_positive (parse_duration f.interval) n h in
        (m, ground arith, above))
]

-- What the pipeline needs of an item: an address, and a text wherever it has a title.
abbrev IsUsable : FeedSpec → Item → Type 0
IsUsable spec i =
    (text_eq i.url [] ≡ false)
    × (text_eq i.html [] ≡ true → text_eq i.title [] ≡ true)
    × (i.topic ≡ spec.topic)
    × (i.tags ≡ spec.tags)

entry_item-IsUsable :
    (spec : FeedSpec) (publisher : Text) (e : FeedEntry)
    → text_eq e.link [] ≡ false
    → IsUsable spec (entry_item spec publisher e)
unfolding entry_item entry_html
entry_item-IsUsable spec publisher e link = (
  link,
  λ blank. elim (Bool-cases (text_eq e.content [])) [
    | inl missing ↦ elim (Bool-cases (text_eq e.description [])) [
      | inl none_given ↦ ground arith
      | inr described ↦ ground arith
    ]
    | inr given ↦ ground arith
  ],
  refl,
  refl,
)

feed_items-IsUsable :
    (spec : FeedSpec) (publisher : Text) (entries : List (Option FeedEntry)) (i : Item)
    → In i (feed_items spec publisher entries)
    → IsUsable spec i
unfolding feed_items
feed_items-IsUsable spec publisher [] i m = absurd m
feed_items-IsUsable spec publisher (none ∷ entries) i m =
    feed_items-IsUsable spec publisher entries i m
feed_items-IsUsable spec publisher (some e ∷ entries) i m = elim (Bool-cases (text_eq e.link [])) [
  | inl blank ↦ feed_items-IsUsable spec publisher entries i (ground arith)
  | inr link ↦
      (let n : In i (entry_item spec publisher e ∷ feed_items spec publisher entries) =
          ground arith in
        elim n [
          | inl same ↦ subst (IsUsable spec) (sym same) (entry_item-IsUsable spec publisher e link)
          | inr later ↦ feed_items-IsUsable spec publisher entries i later
        ])
]

module _ (s : FeedServer) (max_bytes : ℕ) (spec : FeedSpec) where
  -- What a success of Collect rests on.
  abbrev IsRead : List Item → Type 0
  IsRead items =
      (status : ℕ) × (read : ℕ → Option Text) × (body : Text) × (feed : Feed) × (s.respond spec.url
        ≡ some (status, read))
      × (read (max_bytes + 1) ≡ some body)
      × (200 ≤ status)
      × (status ≤ 299)
      × (length body ≤ max_bytes)
      × (s.parse_string body ≡ some feed)
      × (items ≡ feed_items spec feed.title feed.entries)

  -- Collect succeeds only on an answer in the 200s whose body is within the bound and parses.
  rss_collect-IsRead : (items : List Item) → rss_collect s max_bytes spec ≡ ok items → IsRead items
  unfolding rss_collect read_feed parse_feed
  rss_collect-IsRead items h = elim (Option-cases (s.respond spec.url)) [
    | inl silent ↦ absurd (ground arith)
    | inr ((status, read), answered) ↦ elim (Option-cases (read (max_bytes + 1))) [
      | inl broken ↦ absurd (ground arith)
      | inr (body, whole) ↦ elim (Option-cases (s.parse_string body)) [
        | inl garbled ↦ absurd (ground arith)
        | inr (feed, parsed) ↦ (
          status,
          read,
          body,
          feed,
          answered,
          whole,
          ground arith,
          ground arith,
          ground arith,
          parsed,
          ground arith,
        )
      ]
    ]
  ]
