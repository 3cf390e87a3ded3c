-- ===== src/ClientIp/Hops.antt =====
-- rate_limit_ip.py: the hops of a header, parsed and walked.
use lifeflow.Prelude.{
  is_nil, ℕ, ◌+◌, Bool, true, false, ◌&&◌, ◌||◌, not, ◌≡◌, refl, ap, ◌∙◌, String, List, [], ◌∷◌,
  ◌++◌, Option, none, some, length, length-append, all, find?, ltb, leb, arith, nat_eq,
  if◌then◌else◌,
}
use lifeflow.ClientIp.{
  Address, Network, ClientIpResolution, raw_hops, is_trusted, reverse, is_nil, parse_address,
  add_hop, parsed_hops, direct, forwarded, walked, from_hops, from_header,
}
use lifeflow.ClientIp.Header.{
  appended, raw_hops-appended, is_empty-appended, find?-append-none, find?-reverse,
}

limited :
    (n bound : ℕ) (b : Bool) (resolved found failed : ClientIpResolution)
    → resolved ≡ (if b then found else failed)
    → (if ltb bound n then failed else resolved) ≡ (if leb n bound && b then found else failed)
limited n bound b resolved found failed e = ground (arith, e)

module _ (ip_address : String → Option Address) (ip_network : String → Option Network)
    (text : Address → String) (networks : List Network) where
  abbrev address_of : String → Option Address
  address_of = parse_address ip_address ip_network text

  abbrev is_some : Option Address → Bool
  is_some none = false
  is_some (some _) = true

  abbrev is_address : String → Bool
  is_address hop = is_some (address_of hop)

  abbrev trusted : Option Address → Bool
  trusted none = false
  trusted (some a) = is_trusted networks a

  -- A hop of a trusted proxy.
  abbrev pub is_proxy : String → Bool
  is_proxy hop = trusted (address_of hop)

  abbrev pub are_addresses : List String → Bool
  are_addresses = all is_address

  abbrev hops_parsed : List String → Option (List Address)
  hops_parsed = parsed_hops ip_address ip_network text

  abbrev hop_added : Option Address → Option (List Address) → Option (List Address)
  hop_added = add_hop ip_address ip_network text

  abbrev is_untrusted : Address → Bool
  is_untrusted a = not (is_trusted networks a)

  abbrev Proxies : Option (List Address) → Type 0
  Proxies o =
      (addresses : List Address) × ((o ≡ some addresses)
        × (find? is_untrusted (reverse addresses) ≡ none))

  add_hop-Proxies :
      (hop : Option Address) (o : Option (List Address))
      → trusted hop ≡ true
      → Proxies o
      → Proxies (hop_added hop o)
  add_hop-Proxies none o t p = absurd (ground arith)
  add_hop-Proxies (some a) o t (addresses, (e, f)) = (
    a ∷ addresses,
    (
      ap (hop_added (some a)) e,
      find?-append-none is_untrusted (reverse addresses) (a ∷ []) f ∙ ground (arith, t),
    ),
  )

  parsed_hops-Proxies : (hops : List String) → all is_proxy hops ≡ true → Proxies (hops_parsed hops)
  parsed_hops-Proxies [] e = ([], (refl, refl))
  parsed_hops-Proxies (hop ∷ hops) e =
      add_hop-Proxies (address_of hop) (hops_parsed hops) (ground (arith, e))
        (parsed_hops-Proxies hops (ground (arith, e)))

  -- Hops before parsed ones: parsed too, or one of them is malformed.
  abbrev Before : Bool → List Address → Option (List Address) → Type 0
  Before true later o = (addresses : List Address) × (o ≡ some (addresses ++ later))
  Before false later o = o ≡ none

  add_hop-Before :
      (hop : Option Address) (b : Bool) (later : List Address) (o : Option (List Address))
      → Before b later o
      → Before (is_some hop && b) later (hop_added hop o)
  add_hop-Before none b later o p = refl
  add_hop-Before (some a) true later o (addresses, e) = (a ∷ addresses, ap (hop_added (some a)) e)
  add_hop-Before (some a) false later o e = ap (hop_added (some a)) e

  parsed_hops-Before :
      (hops later : List String) (addresses : List Address)
      → hops_parsed later ≡ some addresses
      → Before (are_addresses hops) addresses (hops_parsed (hops ++ later))
  parsed_hops-Before [] later addresses e = ([], e)
  parsed_hops-Before (hop ∷ hops) later addresses e =
      add_hop-Before (address_of hop) (are_addresses hops) addresses (hops_parsed (hops ++ later))
        (parsed_hops-Before hops later addresses e)

  abbrev resolved : Address → Option (List Address) → ClientIpResolution
  resolved = from_hops ip_address ip_network text networks

  from_hops-Before :
      (b : Bool) (peer client : Address) (proxies : List Address) (o : Option (List Address))
      → is_trusted networks client ≡ false
      → find? is_untrusted (reverse proxies) ≡ none
      → Before b (client ∷ proxies) o
      → resolved peer o ≡ (
          if b
          then forwarded ip_address ip_network text client
          else direct ip_address ip_network text peer true)
  from_hops-Before true peer client proxies o u f (addresses, e) =
      ap (resolved peer) e
      ∙ ap (λ c. walked ip_address ip_network text c peer (addresses ++ client ∷ proxies))
          (find?-reverse is_untrusted addresses proxies client (ground (arith, u)) f)
  from_hops-Before false peer client proxies o u f e = ap (resolved peer) e

  is_nil-append :
      (before : List String) (hop : String) (hops : List String)
      → is_nil (before ++ hop ∷ hops) ≡ false
  is_nil-append [] hop hops = refl
  is_nil-append (_ ∷ _) hop hops = refl

  module _ (max_forwarded_hops : ℕ) (peer : Address) where
    -- What a header with these hops resolves to.
    abbrev of_hops : Bool → List String → ClientIpResolution
    of_hops empty hops =
        if empty
        then direct ip_address ip_network text peer false
        else if is_nil hops || ltb max_forwarded_hops (length hops)
        then direct ip_address ip_network text peer true
        else resolved peer (hops_parsed hops)

    of_hops-found :
        (before proxies : List String) (hop : String) (client : Address)
        → address_of hop ≡ some client
        → is_trusted networks client ≡ false
        → all is_proxy proxies ≡ true
        → of_hops false (before ++ hop ∷ proxies) ≡ (
            if leb (length before + length (hop ∷ proxies)) max_forwarded_hops
              && are_addresses before
            then forwarded ip_address ip_network text client
            else direct ip_address ip_network text peer true)
    of_hops-found before proxies hop client e u t =
        let (addresses, (parsed, f)) = parsed_hops-Proxies proxies t in
        let found =
          from_hops-Before (are_addresses before) peer client addresses
            (hops_parsed (before ++ hop ∷ proxies)) u f
            (parsed_hops-Before before (hop ∷ proxies) (client ∷ addresses) (
              ap (λ o. hop_added o (hops_parsed proxies)) e
              ∙ ap (hop_added (some client)) parsed)) in
        let failed = direct ip_address ip_network text peer true in
        let ended = forwarded ip_address ip_network text client in
        let hops = before ++ hop ∷ proxies in
        ap
          (λ empty.
            if empty || ltb max_forwarded_hops (length hops)
            then failed
            else resolved peer (hops_parsed hops))
          (is_nil-append before hop proxies)
        ∙ limited (length hops) max_forwarded_hops (are_addresses before)
            (resolved peer (hops_parsed hops)) ended failed found
        ∙ ap (λ n. if leb n max_forwarded_hops && are_addresses before then ended else failed)
            (length-append before (hop ∷ proxies))

    pub from_header-appended :
        (spoofed added hop : String) (proxies : List String) (client : Address)
        → raw_hops added ≡ hop ∷ proxies
        → address_of hop ≡ some client
        → is_trusted networks client ≡ false
        → all is_proxy proxies ≡ true
        → from_header ip_address ip_network text max_forwarded_hops networks peer
            (some (appended spoofed added))
          ≡ (if leb (length (raw_hops spoofed) + length (hop ∷ proxies)) max_forwarded_hops
                && are_addresses (raw_hops spoofed)
              then forwarded ip_address ip_network text client
              else direct ip_address ip_network text peer true)
    from_header-appended spoofed added hop proxies client h e u t =
        ap (λ empty. of_hops empty (raw_hops (appended spoofed added)))
          (is_empty-appended spoofed added)
        ∙ ap (of_hops false)
            (raw_hops-appended spoofed added ∙ ap (λ hops. raw_hops spoofed ++ hops) h)
        ∙ of_hops-found (raw_hops spoofed) proxies hop client e u t
