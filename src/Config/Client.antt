-- ===== src/Config/Client.antt =====
-- `LoadClient` of internal/config/config.go, after the file is decoded. `filepath.IsAbs` differs
-- between the systems and is a parameter.
pub mod Sound
use wsn.Prelude.{
  ltb, leb, ◌==◌, if◌then◌else◌, ltb→lt, leb→le, ==_iff, Bool-cases, Option-cases, bytes_eq,
  bytes_eq_iff, bytes_eq_refl, among, Eq, nat_eq, bytes_key, length, take, drop, Elem,
  length-append, take-append-drop, length-take, length-drop, All, All-append, Map, lookup, insert,
  remove, Distinct, Entry, lookup-insert, lookup-remove, insert-Distinct, remove-Distinct,
  Entry-of_lookup, lookup-of_Entry, Result, ◌>>=◌, ◌>>◌, refuse_if, or_err, Result-cases, ok, err,
  ℕ, zero, suc, ◌+◌, ◌-◌, ◌*◌, ◌/◌, ◌%◌, ◌^◌, ◌≤◌, ◌<◌, ◌≡◌, refl, sym, ap, subst, ◌∙◌, ◌≢◌, ◌↔◌,
  ◌⊎◌, inl, inr, Bool, true, false, not, ◌&&◌, ◌||◌, Option, none, some, List, [], ◌∷◌, ◌++◌, map,
  append_assoc, append-nil, arith,
}
use wsn.Protocol.{Bytes, codes}
use wsn.Netip.{Prefix, masked, contains, prefixes_overlap}
use wsn.Formats.{Formats}
use wsn.Config.{
  ConfigError, ℤ, below, above, or_default, validate_id, parse_mac, default_max_frame_size,
}

pub record ClientConfig : Type 0 where
  pub server : Bytes
  pub ca_file : Bytes
  pub id : Bytes
  pub key_file : Bytes
  pub device : Bytes
  pub mac : Bytes
  pub address : Bytes
  pub gateway : Bytes
  pub routes : List Bytes
  pub max_frame_size : ℤ

pub data ClientConfigError : Type 0 where
  of_config : ConfigError → ClientConfigError
  server_scheme missing_file relative_path bad_address bad_gateway gateway_outside bad_route :
      ClientConfigError
  route_overlaps frame_size : ClientConfigError

abbrev checked {ℓ} : {A : Type ℓ} → Result ConfigError A → Result ClientConfigError A
checked (ok a) = ok a
checked (err e) = err (of_config e)

-- `strings.HasPrefix`.
abbrev pub has_prefix : Bytes → Bytes → Bool
has_prefix [] s = true
has_prefix (c ∷ p) [] = false
has_prefix (c ∷ p) (d ∷ s) = (c == d) && has_prefix p s

abbrev pub is_blank : Bytes → Bool
is_blank [] = true
is_blank (c ∷ s) = false

module _ (f : Formats) where
  -- The loop over the routes.
  unfoldable pub check_routes : Prefix → List Bytes → Result ClientConfigError (Unit {0})
  check_routes address [] = ok tt
  check_routes address (route ∷ routes) = do
    prefix ← or_err (f.parse_prefix route) bad_route
    refuse_if (prefixes_overlap (masked address) (masked prefix)) route_overlaps
    check_routes address routes

  unfoldable pub load_client : (Bytes → Bool) → ClientConfig → Result ClientConfigError ClientConfig
  unfolding check_routes
  load_client is_abs cfg = do
    checked (validate_id cfg.id)
    refuse_if (is_blank cfg.server || not (has_prefix (codes "wss://") cfg.server)) server_scheme
    refuse_if (is_blank cfg.ca_file || is_blank cfg.key_file || is_blank cfg.device) missing_file
    refuse_if (not (is_abs cfg.ca_file) || not (is_abs cfg.key_file)) relative_path
    mac ← checked (parse_mac f cfg.mac)
    address ← or_err (f.parse_prefix cfg.address) bad_address
    gateway ← or_err (f.parse_addr cfg.gateway) bad_gateway
    refuse_if (not (contains (masked address) gateway)) gateway_outside
    check_routes address cfg.routes
    let size = or_default cfg.max_frame_size default_max_frame_size
    refuse_if (below size 64 || above size 65535) frame_size
    ok (record cfg { mac = f.print_mac mac; max_frame_size = size })
