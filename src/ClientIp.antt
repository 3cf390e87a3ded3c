-- ===== src/ClientIp.antt =====
-- rate_limit_ip.py: the address that an anonymous request is charged to.
pub mod Header
pub mod Hops
pub mod Spoofing
use Prim.Native.Char.{code}
use lifeflow.Prelude.{
  is_nil, ℕ, ◌+◌, ◌-◌, ◌*◌, ◌/◌, ◌%◌, ◌^◌, Bool, true, false, ◌&&◌, ◌||◌, not, String, List, [],
  ◌∷◌, ◌++◌, Option, none, some, length, any, find?, ltb, is_empty, is_space, strip_by, ◌==◌,
  nat_eq, if◌then◌else◌,
}

-- IPv4Address and IPv6Address: a number of 32 or 128 bits, the latter perhaps with a zone.
pub record Address : Type 0 where
  pub version : ℕ
  pub value : ℕ
  pub scope_id : Option String

-- IPv4Network and IPv6Network: the lowest address, and the number of bits that vary.
pub record Network : Type 0 where
  pub network_version : ℕ
  pub lowest : ℕ
  pub host_bits : ℕ

pub record ClientIpResolution : Type 0 where
  pub ip : String
  pub used_forwarded_header : Bool
  pub forwarded_header_rejected : Bool

pub record ClientRequest : Type 0 where
  pub host : Option String
  pub forwarded_for : Option String

unfoldable pub strip : String → String
strip = strip_by is_space

-- `raw.split(",")`, its first piece apart.
unfoldable pub split_from : String → String × List String
split_from String.[] = (String.[], [])
split_from (String.◌∷◌ c s) =
    let (w, ws) = split_from s in
    if code c == b',' then (String.[], w ∷ ws) else (String.◌∷◌ c w, ws)

unfoldable pub split : String → List String
split s = (split_from s).0 ∷ (split_from s).1

-- `[hop.strip() for hop in … if hop.strip()]`
unfoldable pub stripped : List String → List String
stripped [] = []
stripped (w ∷ ws) = let rest = stripped ws in if is_empty (strip w) then rest else strip w ∷ rest

unfoldable pub raw_hops : String → List String
raw_hops s = stripped (split s)

-- `_normalise`: an IPv4 address that is mapped into IPv6 is the IPv4 address.
unfoldable pub normalise : Address → Address
normalise a =
    if a.version == 6 && a.value / 2 ^ 32 == 65535
    then record { version = 4; value = a.value % 2 ^ 32; scope_id = none }
    else a

-- `address in network`
abbrev pub is_in : Address → Network → Bool
is_in a n = a.value - a.value % 2 ^ n.host_bits == n.lowest

-- `_is_trusted`
unfoldable pub is_trusted : List Network → Address → Bool
is_trusted networks a = any (λ n. a.version == n.network_version && is_in a n) networks

abbrev pub reverse {ℓ} : {A : Type ℓ} → List A → List A
reverse [] = []
reverse (x ∷ xs) = reverse xs ++ x ∷ []

-- `ip_address`, `ip_network` with strict=False, and the text of an address are Python's `ipaddress`.
module _ (ip_address : String → Option Address) (ip_network : String → Option Network)
    (text : Address → String) where
  -- The entries that are well formed.
  abbrev pub add_network : Option Network → List Network → List Network
  add_network none networks = networks
  add_network (some n) networks = n ∷ networks

  abbrev pub networks_of : List String → List Network
  networks_of [] = []
  networks_of (entry ∷ entries) = add_network (ip_network entry) (networks_of entries)

  unfoldable pub parse_trusted_proxy_cidrs : String → List Network
  parse_trusted_proxy_cidrs raw = networks_of (raw_hops raw)

  abbrev pub normalised : Option Address → Option Address
  normalised none = none
  normalised (some a) = some (normalise a)

  unfoldable pub parse_address : String → Option Address
  parse_address raw = normalised (ip_address (strip raw))

  -- `parsed_hops`, or none for a malformed hop.
  abbrev pub add_hop : Option Address → Option (List Address) → Option (List Address)
  add_hop (some a) (some addresses) = some (a ∷ addresses)
  add_hop _ _ = none

  abbrev pub parsed_hops : List String → Option (List Address)
  parsed_hops [] = some []
  parsed_hops (hop ∷ hops) = add_hop (parse_address hop) (parsed_hops hops)

  -- The immediate peer, and whether a header was rejected.
  abbrev pub direct : Address → Bool → ClientIpResolution
  direct peer rejected = record {
    ip = text peer;
    used_forwarded_header = false;
    forwarded_header_rejected = rejected;
  }

  abbrev pub forwarded : Address → ClientIpResolution
  forwarded a = record {
    ip = text a;
    used_forwarded_header = true;
    forwarded_header_rejected = false;
  }

  abbrev pub untouched : String → ClientIpResolution
  untouched ip = record {
    ip = ip;
    used_forwarded_header = false;
    forwarded_header_rejected = false;
  }

  -- The walk from the trusted edge, or the leftmost hop.
  abbrev pub leftmost : Address → List Address → ClientIpResolution
  leftmost peer [] = direct peer true
  leftmost peer (a ∷ addresses) = forwarded a

  abbrev pub walked : Option Address → Address → List Address → ClientIpResolution
  walked (some a) peer addresses = forwarded a
  walked none peer addresses = leftmost peer addresses

  abbrev pub from_hops : List Network → Address → Option (List Address) → ClientIpResolution
  from_hops networks peer none = direct peer true
  from_hops networks peer (some addresses) =
      walked (find? (λ a. not (is_trusted networks a)) (reverse addresses)) peer addresses

  abbrev pub from_header : ℕ → List Network → Address → Option String → ClientIpResolution
  from_header max_forwarded_hops networks peer none = direct peer false
  from_header max_forwarded_hops networks peer (some header) =
      let hops = raw_hops header in
      if is_empty header
      then direct peer false
      else if is_nil hops || ltb max_forwarded_hops (length hops)
      then direct peer true
      else from_hops networks peer (parsed_hops hops)

  abbrev pub from_peer :
      ℕ → List Network → String → Option Address → Option String → ClientIpResolution
  from_peer max_forwarded_hops networks host none header = untouched host
  from_peer max_forwarded_hops networks host (some peer) header =
      if is_nil networks || not (is_trusted networks peer)
      then direct peer false
      else from_header max_forwarded_hops networks peer header

  module _ (trusted_proxy_cidrs : String) (max_forwarded_hops : ℕ) where
    abbrev pub from_host : Option String → Option String → ClientIpResolution
    from_host none header = untouched "unknown"
    from_host (some host) header =
        from_peer max_forwarded_hops (parse_trusted_proxy_cidrs trusted_proxy_cidrs) host
          (parse_address host) header

    unfoldable pub resolve_client_ip : ClientRequest → ClientIpResolution
    resolve_client_ip r = from_host r.host r.forwarded_for
