-- ===== src/Examples/Networks.antt =====
-- A client of a network with one public and one private address.
use factvault.Common.{
  ℕ, ◌≡◌, refl, true, false, none, some, List, [], ◌∷◌, Text, lit, text_eq, ◌==◌, ok, Option,
  if◌then◌else◌,
}
use factvault.Network.{NetPackages, to_addr, dial_context, check_redirect}
use factvault.Network
use factvault.Network.Public.{IsDialled, dial_context-IsDialled}

abbrev addresses : Text → Option (List ℕ)
addresses host = if text_eq host (lit "h") then some (8 ∷ []) else none

abbrev pub network : NetPackages
network = record {
  is_valid = λ ip. true;
  is_loopback = λ ip. ip == 1;
  is_private = λ ip. ip == 10;
  is_link_local_unicast = λ ip. false;
  is_multicast = λ ip. false;
  is_unspecified = λ ip. ip == 0;
  parse_addr = λ host. none;
  lookup_net_ip = λ host. addresses host;
  split_host_port = λ addr. some (addr, lit "80");
  parse_url = λ raw. some (lit "https", raw);
  equal_fold = λ s t. text_eq s t;
}

dialled_now : dial_context network false (lit "h") ≡ ok (to_addr 8)
unfolding dial_context Network.dial_name Network.dial_resolved Network.any_blocked
    Network.is_blocked_addr text_eq
dialled_now = refl

dial_context-IsDialled_example : IsDialled network (lit "h") (to_addr 8)
dial_context-IsDialled_example = dial_context-IsDialled network (lit "h") (to_addr 8) dialled_now
