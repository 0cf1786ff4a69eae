-- ===== src/Provision/Resolver.antt =====
-- `normalizeResolver` and `normalizeSearchDomains` of internal/provision/provision.go.
pub mod Normal
use wsn.Prelude.{
  if◌then◌else◌, nat_eq, bytes_key, Result, ◌>>=◌, ◌>>◌, refuse_if, or_err, ok, err, not, List, [],
  ◌∷◌,
}
use wsn.Protocol.{Bytes}
use wsn.Text.{trim_space, trim_dots, to_lower}
use wsn.Text.Sets.{add_text}
use wsn.Formats.{Formats}
use wsn.Netip.{Prefix, contains}
use wsn.Provision.Names.{safe_domain_name}
use wsn.Provision.Plan.{is_empty}

pub data ResolverError : Type 0 where
  invalid_domain search_without_dns bad_dns dns_inside_overlay dns_without_search : ResolverError

-- `strings.Trim(strings.TrimSpace(value), ".")`.
unfoldable pub domain_of : Bytes → Bytes
unfolding trim_space trim_dots
domain_of value = trim_dots (trim_space value)

-- One round of the loop; a blank domain is skipped.
abbrev pub with_domain :
    Bytes → Result ResolverError (List Bytes) → Result ResolverError (List Bytes)
with_domain [] rest = rest
with_domain (c ∷ s) rest = do
  refuse_if (not (safe_domain_name (c ∷ s))) invalid_domain
  unique ← rest
  ok (add_text (to_lower (c ∷ s)) unique)

unfoldable pub normalize_search_domains : List Bytes → Result ResolverError (List Bytes)
normalize_search_domains [] = ok []
normalize_search_domains (value ∷ values) =
    with_domain (domain_of value) (normalize_search_domains values)

module _ (f : Formats) where
  -- The resolver and the search domains, once the value is trimmed and the domains are normalized.
  unfoldable pub resolver_for :
      Bytes → List Bytes → Prefix → Result ResolverError (Bytes × List Bytes)
  resolver_for [] [] overlay = ok ([], [])
  resolver_for [] (domain ∷ search) overlay = err search_without_dns
  resolver_for (c ∷ resolver) search overlay = do
    address ← or_err (f.parse_addr (c ∷ resolver)) bad_dns
    refuse_if (contains overlay address) dns_inside_overlay
    refuse_if (is_empty search) dns_without_search
    ok (f.print_addr address, search)

  unfoldable pub normalize_resolver :
      Bytes → List Bytes → Prefix → Result ResolverError (Bytes × List Bytes)
  unfolding resolver_for
  normalize_resolver value domains overlay = do
    search ← normalize_search_domains domains
    resolver_for (trim_space value) search overlay
