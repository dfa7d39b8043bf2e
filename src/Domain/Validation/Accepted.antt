-- ===== src/Domain/Validation/Accepted.antt =====
-- Which destinations pass the validation of src/domain/validation.py.
use agentic_engineering_url.Prelude.{
  String, ◌≡◌, refl, ◌⊎◌, ◌↔◌, inl, inr, true, false, none, some, List, [], ◌∷◌, arith, ◌==◌, ◌||◌,
  eq→≡, sym, subst, Bool-cases, Option-cases, All, ok,
}
use agentic_engineering_url.Domain.Validation.{
  ParsedUrl, Address, Outside, Lookup, reject_internal, candidates,
  reject_private_or_internal_address, validate_destination_url,
}

-- None of the internal kinds of address.
abbrev pub IsOutside : Address → Type 0
IsOutside ip =
    (ip.is_loopback ≡ false)
    × (ip.is_private ≡ false)
    × (ip.is_link_local ≡ false)
    × (ip.is_reserved ≡ false)

module _ (os : Outside) where
  -- An address text that `ip_address` reads as an outside address.
  abbrev pub IsReadOutside : String → Type 0
  IsReadOutside addr = (ip : Address) × (os.ip_address addr ≡ some ip) × IsOutside ip

  -- A host name that is no address and cannot be resolved, or resolves to outside addresses only.
  abbrev pub IsNameOutside : String → Type 0
  IsNameOutside host =
      (os.getaddrinfo host ≡ Lookup.unresolvable)
      ⊎ ((addrs : List String) × (os.getaddrinfo host ≡ Lookup.resolved addrs)
          × All IsReadOutside addrs)

  abbrev pub IsHostOutside : String → Type 0
  IsHostOutside host = IsReadOutside host ⊎ ((os.ip_address host ≡ none) × IsNameOutside host)

  -- What a destination must be: an http or https URL with a location and an outside host.
  abbrev pub IsAcceptable : String → Type 0
  IsAcceptable url =
      (parsed : ParsedUrl) × (host : String) × (os.urlparse url ≡ some parsed)
      × ((url == "") ≡ false)
      × ((parsed.scheme ≡ "https") ⊎ (parsed.scheme ≡ "http"))
      × ((parsed.netloc == "") ≡ false)
      × (parsed.hostname ≡ some host)
      × ((host == "") ≡ false)
      × IsHostOutside host

  reject_internal-of :
      (addrs : List String) → reject_internal os addrs ≡ ok tt → All IsReadOutside addrs
  unfolding reject_internal
  reject_internal-of [] h = tt
  reject_internal-of (a ∷ as') h = elim (Option-cases (os.ip_address a)) [
    | inl n ↦ absurd (ground arith)
    | inr q ↦
        let (ip, e) = q in
        (
          (ip, e, (ground arith, ground arith, ground arith, ground arith)),
          reject_internal-of as' (ground arith),
        )
  ]

  reject_internal_if :
      (addrs : List String) → All IsReadOutside addrs → reject_internal os addrs ≡ ok tt
  unfolding reject_internal
  reject_internal_if [] h = refl
  reject_internal_if (a ∷ as') h = ground (arith, reject_internal_if as' h.1)

  Lookup-cases :
      (l : Lookup)
      → ((addrs : List String) × (l ≡ Lookup.resolved addrs))
        ⊎ ((l ≡ Lookup.unresolvable) ⊎ (l ≡ Lookup.unencodable))
  Lookup-cases (Lookup.resolved addrs) = inl (addrs, refl)
  Lookup-cases Lookup.unresolvable = inr (inl refl)
  Lookup-cases Lookup.unencodable = inr (inr refl)

  host-of :
      (host : String)
      → reject_private_or_internal_address os (some host) ≡ ok tt
      → IsHostOutside host
  unfolding reject_private_or_internal_address candidates
  host-of host h = elim (Option-cases (os.ip_address host)) [
    | inr q ↦ inl ((reject_internal-of (host ∷ []) (ground (arith, q.1))).0)
    | inl n ↦ inr (
      n,
      elim (Lookup-cases (os.getaddrinfo host)) [
        | inl r ↦ inr (r.0, r.1, reject_internal-of r.0 (ground (arith, n, r.1)))
        | inr s ↦ elim s [ inl u ↦ inl u | inr u ↦ absurd (ground (arith, n, u)) ]
      ],
    )
  ]

  host_if :
      (host : String)
      → (host == "") ≡ false
      → IsHostOutside host
      → reject_private_or_internal_address os (some host) ≡ ok tt
  unfolding reject_private_or_internal_address candidates
  host_if host g (inl r) = ground (arith, r.1, reject_internal_if (host ∷ []) (r, tt))
  host_if host g (inr (n, inl u)) = unfold reject_internal in ground (arith, n, u)
  host_if host g (inr (n, inr r)) = ground (arith, n, r.1, reject_internal_if r.0 r.2)

  scheme-of :
      (scheme : String)
      → ((scheme == "https") || (scheme == "http")) ≡ true
      → (scheme ≡ "https") ⊎ (scheme ≡ "http")
  scheme-of scheme h = elim (Bool-cases (scheme == "https")) [
    | inl y ↦ inl (eq→≡ scheme "https" y)
    | inr n ↦ inr (eq→≡ scheme "http" (ground (arith, n)))
  ]

  accepted-of : (url : String) → validate_destination_url os url ≡ ok tt → IsAcceptable url
  unfolding validate_destination_url reject_private_or_internal_address
  accepted-of url h = elim (Option-cases (os.urlparse url)) [
    | inl n ↦ absurd (ground arith)
    | inr q ↦
        let (parsed, e) = q in
        elim (Option-cases parsed.hostname) [
          | inl n ↦ absurd (ground arith)
          | inr w ↦
              let (host, f) = w in
              (
                parsed,
                host,
                e,
                ground arith,
                scheme-of parsed.scheme (ground arith),
                ground arith,
                f,
                ground arith,
                host-of host (ground arith),
              )
        ]
  ]

  scheme_if :
      (scheme : String)
      → (scheme ≡ "https") ⊎ (scheme ≡ "http")
      → ((scheme == "https") || (scheme == "http")) ≡ true
  scheme_if scheme (inl y) = subst (λ s. ((s == "https") || (s == "http")) ≡ true) (sym y) refl
  scheme_if scheme (inr y) = subst (λ s. ((s == "https") || (s == "http")) ≡ true) (sym y) refl

  accepted_if : (url : String) → IsAcceptable url → validate_destination_url os url ≡ ok tt
  unfolding validate_destination_url
  accepted_if url (parsed, host, e, u, s, l, f, g, o) =
      ground (arith, e, f, scheme_if parsed.scheme s, host_if host g o)

  -- A destination is accepted exactly when it is not empty and can be parsed, its scheme is http
  -- or https, it has a network location and a hostname, and the hostname is an address that is
  -- neither loopback, private, link-local nor reserved, or is no address and either cannot be
  -- resolved, or resolves to such addresses only. A hostname that getaddrinfo cannot encode is not
  -- accepted.
  pub accepted_iff : (url : String) → (validate_destination_url os url ≡ ok tt) ↔ IsAcceptable url
  accepted_iff url = (accepted-of url, accepted_if url)
