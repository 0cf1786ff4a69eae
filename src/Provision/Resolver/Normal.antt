-- ===== src/Provision/Resolver/Normal.antt =====
-- What the normalized resolver of internal/provision/provision.go satisfies.
use wsn.Prelude.{
  Elem, Option-cases, Result-cases, nat_eq, bytes_key, ok, err, ◌≡◌, refl, ◌≢◌, ◌↔◌, ◌⊎◌, inl, inr,
  true, false, List, [], ◌∷◌, arith, some, ℕ, subst, sym, ap, ◌∙◌,
}
use wsn.Protocol.{Bytes}
use wsn.Text.{trim_space, to_lower}
use wsn.Text.Sets.{add_text, AreRising, add_text-AreRising, Elem-add_text}
use wsn.Formats.{Formats}
use wsn.Netip.{Prefix, contains}
use wsn.Provision.Names.{safe_domain_name}
use wsn.Provision.Plan.{is_empty}
use wsn.Provision.Resolver.{
  domain_of, with_domain, normalize_search_domains, resolver_for, normalize_resolver,
}

-- `d` is a value's domain in lower case.
abbrev pub IsDomainOf : Bytes → Bytes → Type 0
IsDomainOf d value =
    (safe_domain_name (domain_of value) ≡ true)
    × (domain_of value ≢ [])
    × (d ≡ to_lower (domain_of value))

abbrev pub IsNamed : Bytes → List Bytes → Type 0
IsNamed d [] = ⊥
IsNamed d (value ∷ values) = IsDomainOf d value ⊎ IsNamed d values

-- The domains rise, and are those of the values.
pub record AreDomainsOf (values result : List Bytes) : Type 0 where
  pub rising : AreRising result
  pub exactly : (d : Bytes) → Elem d result ↔ IsNamed d values

with_domain-AreDomainsOf :
    (value domain : Bytes) (values rest result : List Bytes)
    → domain_of value ≡ domain
    → AreDomainsOf values rest
    → with_domain domain (ok rest) ≡ ok result
    → AreDomainsOf (value ∷ values) result
with_domain-AreDomainsOf value [] values rest result e v h =
    subst (AreDomainsOf (value ∷ values)) {x = rest} (ground arith)
      (record { rising = v.rising; exactly = λ d. (λ m. inr ((v.exactly d).0 m), only d) })
  where
    only : (d : Bytes) → IsNamed d (value ∷ values) → Elem d rest
    only d (inl p) = absurd (p.1 e)
    only d (inr p) = (v.exactly d).1 p
with_domain-AreDomainsOf value (c ∷ s) values rest result e v h =
    let safe : safe_domain_name (c ∷ s) ≡ true = ground arith in
    subst (AreDomainsOf (value ∷ values)) {x = add_text (to_lower (c ∷ s)) rest} (ground arith)
      (record {
        rising = add_text-AreRising (to_lower (c ∷ s)) rest v.rising;
        exactly = λ d. (
          λ m. into safe d ((Elem-add_text d (to_lower (c ∷ s)) rest).0 m),
          λ n. (Elem-add_text d (to_lower (c ∷ s)) rest).1 (back d n),
        );
      })
  where
    into :
        safe_domain_name (c ∷ s) ≡ true
        → (d : Bytes) → (d ≡ to_lower (c ∷ s)) ⊎ Elem d rest
        → IsNamed d (value ∷ values)
    into safe d (inl p) = inl (rw e safe, λ blank. cc, p ∙ ap to_lower (sym e))
    into safe d (inr m) = inr ((v.exactly d).0 m)

    back : (d : Bytes) → IsNamed d (value ∷ values) → (d ≡ to_lower (c ∷ s)) ⊎ Elem d rest
    back d (inl p) = inl (p.2 ∙ ap to_lower e)
    back d (inr n) = inr ((v.exactly d).1 n)

-- normalizeSearchDomains returns the domains of the values, in lower case and in their order, each
-- once; it fails on a value whose domain is neither blank nor safe.
normalize_search_domains-AreDomainsOf :
    (values result : List Bytes)
    → normalize_search_domains values ≡ ok result
    → AreDomainsOf values result
unfolding normalize_search_domains
normalize_search_domains-AreDomainsOf [] result h =
    subst (AreDomainsOf []) {x = []} (ground arith)
      (record { rising = tt; exactly = λ d. (λ m. m, λ m. m) })
normalize_search_domains-AreDomainsOf (value ∷ values) result h =
    elim (Result-cases (normalize_search_domains values)) [
      | inl (bad, e) ↦ absurd (failed (domain_of value) bad (rw e at h))
      | inr (rest, e) ↦
          with_domain-AreDomainsOf value (domain_of value) values rest result refl
            (normalize_search_domains-AreDomainsOf values rest e) (rw e at h)
    ]
  where
    failed : (domain : Bytes) (bad : _) → with_domain domain (err bad) ≡ ok result → ⊥
    failed [] bad k = cc
    failed (c ∷ s) bad k = ground arith

module _ (f : Formats) where
  -- The two outcomes: no resolver and no search domains, or an address outside the overlay with at
  -- least one search domain.
  abbrev pub IsResolver : Bytes → Prefix → Bytes → List Bytes → Type 0
  IsResolver value overlay dns search =
      ((trim_space value ≡ []) × (dns ≡ []) × (search ≡ []))
      ⊎ ((a : ℕ) × (f.parse_addr (trim_space value) ≡ some a)
          × (dns ≡ f.print_addr a)
          × (contains overlay a ≡ false)
          × (is_empty search ≡ false))

  resolver_for-IsResolver :
      (value resolver : Bytes) (found : List Bytes) (overlay : Prefix) (dns : Bytes)
      (search : List Bytes)
      → trim_space value ≡ resolver
      → resolver_for f resolver found overlay ≡ ok (dns, search)
      → (found ≡ search) × IsResolver value overlay dns search
  unfolding resolver_for is_empty
  resolver_for-IsResolver value [] [] overlay dns search e h =
      (ground arith, inl (e, ground arith, ground arith))
  resolver_for-IsResolver value [] (d ∷ found) overlay dns search e h = cc
  resolver_for-IsResolver value (c ∷ s) found overlay dns search e h =
      elim (Option-cases (f.parse_addr (c ∷ s))) [
        | inl bad ↦ ground arith
        | inr (a, p) ↦ (ground arith, inr (a, rw e p, ground arith, ground arith, ground arith))
      ]

  -- A resolver that is accepted goes with its search domains: either there is neither, or the value
  -- is an IPv4 address outside the overlay and there is a search domain; the search domains are those
  -- of the values, in lower case and in their order, each once.
  pub normalize_resolver-IsResolver :
      (value : Bytes) (domains : List Bytes) (overlay : Prefix) (dns : Bytes) (search : List Bytes)
      → normalize_resolver f value domains overlay ≡ ok (dns, search)
      → AreDomainsOf domains search × IsResolver value overlay dns search
  unfolding normalize_resolver
  normalize_resolver-IsResolver value domains overlay dns search h =
      elim (Result-cases (normalize_search_domains domains)) [
        | inl (bad, e) ↦ ground arith
        | inr (found, e) ↦
            let (same, v) =
              resolver_for-IsResolver value (trim_space value) found overlay dns search refl
                (rw e at h) in
            (
              subst (AreDomainsOf domains) same
                  (normalize_search_domains-AreDomainsOf domains found e),
              v,
            )
      ]
