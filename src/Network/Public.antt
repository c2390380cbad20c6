-- ===== src/Network/Public.antt =====
-- internal/netx/http.go: a client that blocks private hosts.
use factvault.Common.{
  ℕ, ◌<◌, true, false, not, ◌&&◌, none, some, List, [], ◌∷◌, Text, lit, text_eq, text_eq_iff, leb,
  length, ◌≡◌, ◌≢◌, ◌↔◌, refl, subst, ap, arith, ◌⊎◌, inl, inr, All, ok, Option-cases, Bool-cases,
}
use factvault.Strings.{trim_space}
use factvault.Network.{
  NetPackages, Target, to_addr, to_name, is_blocked_addr, any_blocked, dial_resolved, dial_name,
  dial_context, validate_name, validate_host, validate_http_url, validate_public_http_url,
  check_redirect,
}

module _ (n : NetPackages) where
  -- What the package net/netip says of an address that is public.
  pub record IsPublicAddr (ip : ℕ) : Type 0 where
    pub valid : n.is_valid ip ≡ true
    loopback : n.is_loopback ip ≡ false
    private : n.is_private ip ≡ false
    link_local : n.is_link_local_unicast ip ≡ false
    multicast : n.is_multicast ip ≡ false
    unspecified : n.is_unspecified ip ≡ false

  is_blocked_addr_iff : (ip : ℕ) → (is_blocked_addr n ip ≡ false) ↔ IsPublicAddr ip
  unfolding is_blocked_addr
  is_blocked_addr_iff ip = (
    λ h. record {
      valid = ground arith;
      loopback = ground arith;
      private = ground arith;
      link_local = ground arith;
      multicast = ground arith;
      unspecified = ground arith;
    },
    λ h. ground (arith, h.valid, h.loopback, h.private, h.link_local, h.multicast, h.unspecified),
  )

  any_blocked_iff : (ips : List ℕ) → (any_blocked n ips ≡ false) ↔ All IsPublicAddr ips
  unfolding any_blocked
  any_blocked_iff [] = (λ h. tt, λ h. refl)
  any_blocked_iff (ip ∷ ips) =
      let head = is_blocked_addr_iff ip in
      let rest = any_blocked_iff ips in
      (
        λ h. (head.0 (ground arith), rest.0 (ground arith)),
        λ h. ground (arith, head.1 h.0, rest.1 h.1),
      )

  -- What may be dialled for an address whose host is given: a public address, or else the name
  -- itself, if it is no literal address and its lookup succeeded without finding any.
  abbrev pub IsDialled : Text → Target → Type 0
  IsDialled addr (to_addr ip) = IsPublicAddr ip
  IsDialled addr (to_name name) =
      (name ≡ addr)
      × (host : Text) × (port : Text) × (n.split_host_port addr ≡ some (host, port))
      × (n.parse_addr host ≡ none)
      × (n.lookup_net_ip host ≡ some [])

  dial_resolved-IsDialled :
      (addr host port : Text) (ips : List ℕ) (t : Target)
      → n.split_host_port addr ≡ some (host, port)
      → n.parse_addr host ≡ none
      → n.lookup_net_ip host ≡ some ips
      → dial_resolved n addr ips ≡ ok t
      → IsDialled addr t
  unfolding dial_resolved
  dial_resolved-IsDialled addr host port [] t split name found h =
      subst (IsDialled addr) {x = to_name addr} {y = t} (ground arith)
        (refl, host, port, split, name, found)
  dial_resolved-IsDialled addr host port (ip ∷ ips) t split name found h =
      elim (Bool-cases (any_blocked n (ip ∷ ips))) [
        | inl blocked ↦ absurd (ground arith)
        | inr free ↦
            subst (IsDialled addr) {x = to_addr ip} {y = t} (ground arith)
              ((any_blocked_iff (ip ∷ ips)).0 free).0
      ]

-- Where private hosts are not allowed, a connection is only made to a valid address that is neither
-- loopback, private, link-local, multicast nor unspecified; but to a name, which is resolved again,
-- if it is no literal address and its lookup succeeded without an address.
pub dial_context-IsDialled :
    (n : NetPackages) (addr : Text) (t : Target)
    → dial_context n false addr ≡ ok t
    → IsDialled n addr t
unfolding dial_context dial_name
dial_context-IsDialled n addr t h = elim (Option-cases (n.split_host_port addr)) [
  | inl bad ↦ absurd (ground arith)
  | inr ((host, port), split) ↦ elim (Option-cases (n.parse_addr host)) [
    | inr (ip, literal) ↦ elim (Bool-cases (is_blocked_addr n ip)) [
      | inl blocked ↦ absurd (ground arith)
      | inr free ↦
          subst (IsDialled n addr) {x = to_addr ip} {y = t} (ground arith)
            ((is_blocked_addr_iff n ip).0 free)
    ]
    | inl name ↦ elim (Option-cases (n.lookup_net_ip host)) [
      | inl failed ↦ absurd (ground arith)
      | inr (ips, found) ↦
          dial_resolved-IsDialled n addr host port ips t split name found (ground arith)
    ]
  ]
]

-- The host's own address, or else each address that its name resolves to, is public.
abbrev HasPublicHost : NetPackages → Text → Type 0
HasPublicHost n host =
    ((ip : ℕ) × (n.parse_addr host ≡ some ip) × IsPublicAddr n ip)
    ⊎ ((ips : List ℕ) × (n.parse_addr host ≡ none)
        × (n.lookup_net_ip host ≡ some ips)
        × All (IsPublicAddr n) ips)

-- An http or https address whose host is neither missing nor localhost, and is public.
pub record IsPublicUrl (n : NetPackages) (raw : Text) : Type 0 where
  scheme : Text
  hostname : Text
  parsed : n.parse_url raw ≡ some (scheme, hostname)
  is_web : (scheme ≡ lit "http") ⊎ (scheme ≡ lit "https")
  present : trim_space hostname ≢ []
  remote : n.equal_fold (trim_space hostname) (lit "localhost") ≡ false
  public_host : HasPublicHost n (trim_space hostname)

validate_name_iff :
    (n : NetPackages) (host : Text)
    → n.parse_addr host ≡ none
    → (validate_name n false host ≡ ok tt) ↔ HasPublicHost n host
unfolding validate_name
validate_name_iff n host name = elim (Option-cases (n.lookup_net_ip host)) [
  | inl failed ↦ (
    λ h. absurd (ground arith),
    λ h. elim h [
      | inl (ip, literal, free) ↦ absurd (ground arith)
      | inr (ips, named, found, free) ↦ absurd (ground arith)
    ],
  )
  | inr (ips, found) ↦ (
    λ h. inr (ips, name, found, (any_blocked_iff n ips).0 (ground arith)),
    λ h. elim h [
      | inl (ip, literal, free) ↦ absurd (ground arith)
      | inr (others, named, found_others, free) ↦
          (let free_others = (any_blocked_iff n others).1 free in
            let same : ips ≡ others = ground arith in ground (arith, ap (any_blocked n) same))
    ],
  )
]

validate_host_iff :
    (n : NetPackages) (host : Text)
    → (validate_host n false host ≡ ok tt)
      ↔ ((host ≢ []) × (n.equal_fold host (lit "localhost") ≡ false) × HasPublicHost n host)
unfolding validate_host
validate_host_iff n host = elim (Bool-cases (text_eq host [])) [
  | inl blank ↦ (λ h. absurd (ground arith), λ h. absurd (h.0 ((text_eq_iff host []).0 blank)))
  | inr named ↦ elim (Bool-cases (n.equal_fold host (lit "localhost"))) [
    | inl local ↦ (λ h. absurd (ground arith), λ h. absurd (ground arith))
    | inr remote ↦
        (let present : host ≢ [] = λ e. ground (arith, text_eq_iff host []) in
          elim (Option-cases (n.parse_addr host)) [
            | inr (ip, literal) ↦
                (let free = is_blocked_addr_iff n ip in
                  (
                    λ h. (present, remote, inl (ip, literal, free.0 (ground arith))),
                    λ h. elim h.2 [
                      | inl (other, same, open_addr) ↦
                          (let clear = (is_blocked_addr_iff n other).1 open_addr in
                            let e : ip ≡ other = ground arith in
                            ground (arith, ap (is_blocked_addr n) e))
                      | inr (ips, name, found, clear) ↦ absurd (ground arith)
                    ],
                  ))
            | inl name ↦
                (let step = validate_name_iff n host name in
                  (
                    λ h. (present, remote, step.0 (ground arith)),
                    λ h. (let valid = step.1 h.2 in ground arith),
                  ))
          ])
  ]
]

web_scheme_iff :
    (scheme : Text)
    → ((not (text_eq scheme (lit "http")) && not (text_eq scheme (lit "https"))) ≡ false)
      ↔ ((scheme ≡ lit "http") ⊎ (scheme ≡ lit "https"))
web_scheme_iff scheme =
    ground (arith, text_eq_iff scheme (lit "http"), text_eq_iff scheme (lit "https"))

public_url_accepted :
    (n : NetPackages) (raw : Text) → IsPublicUrl n raw → validate_public_http_url n raw ≡ ok tt
unfolding validate_public_http_url validate_http_url
public_url_accepted n raw h =
    let known = (web_scheme_iff h.scheme).1 h.is_web in
    let valid =
      (validate_host_iff n (trim_space h.hostname)).1 (h.present, h.remote, h.public_host) in
    ground (arith, h.parsed, known, valid)

-- The guard lets exactly the public addresses through.
pub validate_public_http_url_iff :
    (n : NetPackages) (raw : Text) → (validate_public_http_url n raw ≡ ok tt) ↔ IsPublicUrl n raw
unfolding validate_public_http_url validate_http_url
validate_public_http_url_iff n raw = (
  λ h. elim (Option-cases (n.parse_url raw)) [
    | inl bad ↦ absurd (ground arith)
    | inr ((scheme, hostname), parsed) ↦
        elim (Bool-cases
          (not (text_eq scheme (lit "http")) && not (text_eq scheme (lit "https")))) [
            | inl other ↦ absurd (ground arith)
            | inr known ↦
                (let (present, remote, free) =
                    (validate_host_iff n (trim_space hostname)).0 (ground arith) in
                  record {
                    scheme = scheme;
                    hostname = hostname;
                    parsed = parsed;
                    is_web = (web_scheme_iff scheme).0 known;
                    present = present;
                    remote = remote;
                    public_host = free;
                  })
          ]
  ],
  public_url_accepted n raw,
)

-- A redirect is followed, where private hosts are not allowed, only after fewer than five requests,
-- and only to a public address.
check_redirect-IsPublicUrl :
    (n : NetPackages) (via : List Text) (target : Text)
    → check_redirect n false via target ≡ ok tt
    → (length via < 5) × IsPublicUrl n target
unfolding check_redirect validate_public_http_url
check_redirect-IsPublicUrl n via target h = elim (Bool-cases (leb 5 (length via))) [
  | inl many ↦ absurd (ground arith)
  | inr few ↦ (ground arith, (validate_public_http_url_iff n target).0 (ground arith))
]
