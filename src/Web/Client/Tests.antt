-- ===== src/Web/Client/Tests.antt =====
-- A console behind one trusted proxy.
use cairn_mdm.Prelude.{
  String, [], ◌∷◌, none, some, ◌≡◌, refl, arith, eq_iff, string_eq, ◌==◌, if◌then◌else◌,
}
use cairn_mdm.Web.Client.{Net, parse_trusted_proxies, is_trusted_proxy, client_ip}
use cairn_mdm.Web.Client.Forwarded.{IsFirst, client_ip-IsFirst, client_ip-unspoofable}

-- addresses as strings, a network of one address each, and two headers
abbrev net : Net String String
net = record {
  parse_ip = λ s. if s == "junk" then none else some s;
  parse_cidr = λ s. none;
  host_route = λ ip. ip;
  within = λ network ip. network == ip;
  split_host_port = λ s. some s;
  split_commas = λ s. if s == "spoofed" then "10.9.9.9" ∷ "192.0.2.7" ∷ [] else "192.0.2.7" ∷ [];
  trim_space = λ s. s;
}

client_tests :
    (client_ip net ("10.0.0.1" ∷ []) "10.0.0.1" "spoofed" ≡ "192.0.2.7")
    × (client_ip net ("10.0.0.1" ∷ []) "192.0.2.9" "spoofed" ≡ "192.0.2.9")
    × (client_ip net ("192.0.2.7" ∷ []) "192.0.2.7" "plain" ≡ "192.0.2.7")
    × (parse_trusted_proxies net ("10.0.0.1" ∷ "" ∷ []) ≡ some ("10.0.0.1" ∷ []))
    × (parse_trusted_proxies net ("junk" ∷ []) ≡ none)
unfolding client_ip is_trusted_proxy parse_trusted_proxies
client_tests = (refl, refl, refl, refl, refl)

client_ip-IsFirst_example :
    IsFirst net ("10.0.0.1" ∷ []) "10.0.0.1" ("192.0.2.7" ∷ "10.9.9.9" ∷ []) "192.0.2.7"
unfolding client_ip is_trusted_proxy
client_ip-IsFirst_example =
    client_ip-IsFirst net ("10.0.0.1" ∷ []) "10.0.0.1" "spoofed" refl
      (ground (arith, eq_iff "spoofed" ""))

client_ip-unspoofable_example :
    client_ip net ("10.0.0.1" ∷ []) "10.0.0.1" "spoofed"
    ≡ client_ip net ("10.0.0.1" ∷ []) "10.0.0.1" "plain"
unfolding is_trusted_proxy
client_ip-unspoofable_example =
    client_ip-unspoofable net ("10.0.0.1" ∷ []) "10.0.0.1" "spoofed" "plain" ("192.0.2.7" ∷ [])
      ("10.9.9.9" ∷ []) [] (ground (arith, eq_iff "spoofed" "")) (ground (arith, eq_iff "plain" ""))
      refl refl refl
