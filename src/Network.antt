-- ===== src/Network.antt =====
-- internal/netx/http.go: which addresses a client may connect to. The packages net, net/netip and
-- net/url are parameters; an address is a number that stands for it.
pub mod Public
use factvault.Common.{
  ℕ, Bool, true, false, not, ◌&&◌, ◌||◌, Option, none, some, List, [], ◌∷◌, Text, lit, text_eq, leb,
  length, if◌then◌else◌, Result, ok, err, ◌>>=◌,
}
use factvault.Strings.{trim_space}

pub data Error : Type 0 where
  bad_address blocked_address resolve_failed invalid_url unsupported_scheme missing_host : Error
  blocked_host too_many_redirects : Error

pub record NetPackages : Type 0 where
  pub is_valid : ℕ → Bool
  pub is_loopback : ℕ → Bool
  pub is_private : ℕ → Bool
  pub is_link_local_unicast : ℕ → Bool
  pub is_multicast : ℕ → Bool
  pub is_unspecified : ℕ → Bool
  pub parse_addr : Text → Option ℕ
  pub lookup_net_ip : Text → Option (List ℕ)
  pub split_host_port : Text → Option (Text × Text)
  pub parse_url : Text → Option (Text × Text)
  pub equal_fold : Text → Text → Bool

-- What the dialer is asked to connect to: an address, or a name that it resolves itself.
pub data Target : Type 0 where
  to_addr : ℕ → Target
  to_name : Text → Target

module _ (n : NetPackages) where
  unfoldable pub is_blocked_addr : ℕ → Bool
  is_blocked_addr ip =
      not (n.is_valid ip)
      || (n.is_loopback ip
          || (n.is_private ip
              || (n.is_link_local_unicast ip || (n.is_multicast ip || n.is_unspecified ip))))

  unfoldable pub any_blocked : List ℕ → Bool
  any_blocked [] = false
  any_blocked (ip ∷ ips) = is_blocked_addr ip || any_blocked ips

  -- The first of the resolved addresses is dialled.
  unfoldable pub dial_resolved : Text → List ℕ → Result Error Target
  dial_resolved addr [] = ok (to_name addr)
  dial_resolved addr (ip ∷ ips) =
      if any_blocked (ip ∷ ips) then err blocked_address else ok (to_addr ip)

  unfoldable pub dial_name : Bool → Text → Text → Result Error Target
  dial_name allow_private_hosts addr host =
      if not allow_private_hosts
      then elim (n.lookup_net_ip host) [
        | none ↦ err resolve_failed
        | some ips ↦ dial_resolved addr ips
      ]
      else ok (to_name addr)

  -- The function `DialContext` of the transport.
  unfoldable pub dial_context : Bool → Text → Result Error Target
  dial_context allow_private_hosts addr = elim (n.split_host_port addr) [
    | none ↦ err bad_address
    | some (host, port) ↦ elim (n.parse_addr host) [
      | some ip ↦
          if not allow_private_hosts && is_blocked_addr ip
          then err blocked_address
          else ok (to_addr ip)
      | none ↦ dial_name allow_private_hosts addr host
    ]
  ]

  pub validate_name : Bool → Text → Result Error (Unit {0})
  validate_name allow_private_hosts host = elim (n.lookup_net_ip host) [
    | none ↦ err resolve_failed
    | some ips ↦ if not allow_private_hosts && any_blocked ips then err blocked_address else ok tt
  ]

  pub validate_host : Bool → Text → Result Error (Unit {0})
  validate_host allow_private_hosts host =
      if text_eq host []
      then err missing_host
      else if not allow_private_hosts && n.equal_fold host (lit "localhost")
      then err blocked_host
      else elim (n.parse_addr host) [
        | some ip ↦
            if not allow_private_hosts && is_blocked_addr ip then err blocked_address else ok tt
        | none ↦ validate_name allow_private_hosts host
      ]

  -- `ValidateHTTPURL`, from the scheme and the host name that the address has.
  pub validate_http_url : Bool → Text → Result Error (Unit {0})
  validate_http_url allow_private_hosts raw = elim (n.parse_url raw) [
    | none ↦ err invalid_url
    | some (scheme, hostname) ↦
        if not (text_eq scheme (lit "http")) && not (text_eq scheme (lit "https"))
        then err unsupported_scheme
        else validate_host allow_private_hosts (trim_space hostname)
  ]

  pub validate_public_http_url : Text → Result Error (Unit {0})
  validate_public_http_url raw = validate_http_url false raw

  -- `CheckRedirect`, after so many requests.
  pub check_redirect : Bool → List Text → Text → Result Error (Unit {0})
  check_redirect allow_private_hosts via target =
      if leb 5 (length via)
      then err too_many_redirects
      else validate_http_url allow_private_hosts target
