-- ===== src/Web/Client.antt =====
-- The address that a request is attributed to (internal/web/proxy.go). IP addresses, networks and
-- the splitting and trimming of strings are those of Go's `net` and `strings`: parameters.
mod Forwarded
mod Tests
use cairn_mdm.Prelude.{
  String, Bool, true, false, ◌||◌, not, List, [], ◌∷◌, ◌++◌, reverse, Option, none, some, string_eq,
  ◌==◌, if◌then◌else◌, any,
}

pub record Net (Ip Network : Type 0) : Type 0 where
  pub parse_ip : String → Option Ip
  pub parse_cidr : String → Option Network
  pub host_route : Ip → Network
  pub within : Network → Ip → Bool
  pub split_host_port : String → Option String
  pub split_commas : String → List String
  pub trim_space : String → String

module _ {Ip Network : Type 0} (n : Net Ip Network) where
  abbrev pub entry_network : Option Network → Option Ip → Option Network
  entry_network (some net) ip = some net
  entry_network none none = none
  entry_network none (some ip) = some (n.host_route ip)

  abbrev pub with_entry : Option Network → Option (List Network) → Option (List Network)
  with_entry none rest = none
  with_entry (some net) none = none
  with_entry (some net) (some nets) = some (net ∷ nets)

  -- `parseTrustedProxies`; `none` is its error
  unfoldable pub parse_trusted_proxies : List String → Option (List Network)
  parse_trusted_proxies [] = some []
  parse_trusted_proxies (e ∷ es) =
      let rest = parse_trusted_proxies es in
      let entry = n.trim_space e in
      if entry == ""
      then rest
      else with_entry (entry_network (n.parse_cidr entry) (n.parse_ip entry)) rest

  abbrev in_any : List Network → Option Ip → Bool
  in_any trusted none = false
  in_any trusted (some ip) = any (λ net. n.within net ip) trusted

  -- `isTrustedProxy`
  unfoldable pub is_trusted_proxy : List Network → String → Bool
  is_trusted_proxy trusted s = in_any trusted (n.parse_ip (n.trim_space s))

  -- an address that the walk passes over
  abbrev pub passed_over : List Network → String → Bool
  passed_over trusted part = n.trim_space part == "" || is_trusted_proxy trusted (n.trim_space part)

  -- the loop, on the parts from the right to the left
  abbrev pub walk : List Network → String → List String → String
  walk trusted host [] = host
  walk trusted host (p ∷ ps) =
      let rest = walk trusted host ps in if passed_over trusted p then rest else n.trim_space p

  abbrev pub host_of : String → String
  host_of remote_addr = elim (n.split_host_port remote_addr) [ none ↦ remote_addr | some h ↦ h ]

  abbrev pub is_none : List Network → Bool
  is_none [] = true
  is_none (net ∷ nets) = false

  -- `clientIP` of the peer's address and the X-Forwarded-For header, "" when there is none
  unfoldable pub client_ip : List Network → String → String → String
  client_ip trusted remote_addr forwarded_for =
      let host = host_of remote_addr in
      if is_none trusted || not (is_trusted_proxy trusted host)
      then host
      else if forwarded_for == ""
      then host
      else walk trusted host (reverse (n.split_commas forwarded_for))
