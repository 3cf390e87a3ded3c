-- ===== src/Tests/Clients.antt =====
-- A request through one trusted proxy, whose client has sent a header of its own.
use lifeflow.Prelude.{
  ◌≡◌, refl, String, [], ◌∷◌, Option, none, some, string_eq, nat_eq, ◌==◌, strip_by, is_space,
  if◌then◌else◌,
}
use lifeflow.ClientIp.{
  Address, Network, forwarded, resolve_client_ip, parse_address, strip, normalise, raw_hops,
  stripped, split, split_from, is_trusted, parse_trusted_proxy_cidrs,
}
use lifeflow.ClientIp.Header.{appended}
use lifeflow.ClientIp.Spoofing.{resolve_client_ip-unspoofed}

abbrev proxy : Address
proxy = record { version = 4; value = 167772161; scope_id = none }

abbrev client : Address
client = record { version = 4; value = 3405803783; scope_id = none }

abbrev parse : String → Option Address
parse s = if s == "10.0.0.1" then some proxy else if s == "203.0.113.7" then some client else none

abbrev parse_network : String → Option Network
parse_network s =
    if s == "10.0.0.0/8"
    then some (record { network_version = 4; lowest = 167772160; host_bits = 24 })
    else none

abbrev print : Address → String
print a = if a.value == 167772161 then "10.0.0.1" else "203.0.113.7"

resolve_client_ip-unspoofed_example :
    resolve_client_ip parse parse_network print "10.0.0.0/8" 5 (record {
      host = some "10.0.0.1";
      forwarded_for = some (appended " 10.0.0.1 " "203.0.113.7, 10.0.0.1");
    })
    ≡ forwarded parse parse_network print client
unfolding nat_eq string_eq parse_address strip strip_by is_space normalise raw_hops stripped split
    split_from is_trusted parse_trusted_proxy_cidrs
resolve_client_ip-unspoofed_example =
    resolve_client_ip-unspoofed parse parse_network print "10.0.0.0/8" "10.0.0.1" " 10.0.0.1 "
      "203.0.113.7, 10.0.0.1" "203.0.113.7" 5 proxy client ("10.0.0.1" ∷ []) refl refl refl refl
      refl
