-- ===== src/ClientIp/Spoofing.antt =====
-- rate_limit_ip.py: the address that a client which writes the header itself is charged to.
use lifeflow.Prelude.{
  is_nil, ℕ, ◌+◌, Bool, true, false, ◌&&◌, ◌||◌, not, ◌≡◌, refl, ap, ◌∙◌, String, List, [], ◌∷◌,
  Option, some, length, all, leb, nat_eq, if◌then◌else◌,
}
use lifeflow.ClientIp.{
  Address, Network, ClientIpResolution, raw_hops, is_trusted, is_nil, parse_trusted_proxy_cidrs,
  parse_address, direct, forwarded, from_header, from_peer, resolve_client_ip,
}
use lifeflow.ClientIp.Hops.{is_proxy, are_addresses, from_header-appended}
use lifeflow.ClientIp.Header.{appended}

if-not : (b : Bool) (x y : ClientIpResolution) → (if not b then x else y) ≡ (if b then y else x)
if-not true x y = refl
if-not false x y = refl

is_nil-trusted :
    (a : Address) (ns : List Network) → (is_nil ns || not (is_trusted ns a)) ≡ not (is_trusted ns a)
unfolding is_trusted
is_nil-trusted a [] = refl
is_nil-trusted a (_ ∷ _) = refl

module _ (ip_address : String → Option Address) (ip_network : String → Option Network)
    (text : Address → String) where
  abbrev pub trusted_by : String → List Network
  trusted_by = parse_trusted_proxy_cidrs ip_address ip_network text

  -- A request whose X-Forwarded-For is what the client has sent and, after it, what the proxies have
  -- appended, which is the client's own untrusted address and then addresses of trusted proxies, is
  -- charged to that address if its immediate peer is a trusted proxy, the hops are within the limit,
  -- and all that the client has sent is addresses; with a trusted peer otherwise to the peer, the
  -- header rejected; and with an untrusted peer to the peer, the header ignored. So what the client
  -- has sent never names the address that is charged.
  pub resolve_client_ip-unspoofed :
      (trusted_proxy_cidrs host spoofed added hop : String) (max_forwarded_hops : ℕ)
      (peer client : Address) (proxies : List String)
      → parse_address ip_address ip_network text host ≡ some peer
      → raw_hops added ≡ hop ∷ proxies
      → parse_address ip_address ip_network text hop ≡ some client
      → is_trusted (trusted_by trusted_proxy_cidrs) client ≡ false
      → all (is_proxy ip_address ip_network text (trusted_by trusted_proxy_cidrs)) proxies ≡ true
      → resolve_client_ip ip_address ip_network text trusted_proxy_cidrs max_forwarded_hops
          (record { host = some host; forwarded_for = some (appended spoofed added) })
        ≡ (if is_trusted (trusted_by trusted_proxy_cidrs) peer
            then if leb (length (raw_hops spoofed) + length (hop ∷ proxies)) max_forwarded_hops
                && are_addresses ip_address ip_network text
                    (trusted_by trusted_proxy_cidrs)
                    (raw_hops spoofed)
              then forwarded ip_address ip_network text client
              else direct ip_address ip_network text peer true
            else direct ip_address ip_network text peer false)
  unfolding resolve_client_ip
  resolve_client_ip-unspoofed cidrs host spoofed added hop bound peer client proxies p h c u t =
      let networks = trusted_by cidrs in
      let header =
        from_header ip_address ip_network text bound networks peer
          (some (appended spoofed added)) in
      let near = direct ip_address ip_network text peer false in
      ap
        (λ o.
          from_peer ip_address ip_network text bound networks host o
            (some (appended spoofed added)))
        p
      ∙ ap (λ b. if b then near else header) (is_nil-trusted peer networks)
      ∙ if-not (is_trusted networks peer) near header
      ∙ ap (λ r. if is_trusted networks peer then r else near)
          (from_header-appended ip_address ip_network text networks bound peer spoofed added hop
            proxies client h c u t)
