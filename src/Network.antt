-- ===== src/Network.antt =====
-- What the server trusts of a network address: internal/config/bindaddress.go in this file,
-- internal/transport/http/client_ip.go and origin_validation.go in the children. The parsers of net,
-- netip, crypto/tls and url are parameters; an error is its position in the code, without its text.
pub mod Clients
pub mod Origins
pub mod Binding
mod Samples
use alexandryn.Base.{
  ℕ, Bool, true, false, not, ◌&&◌, ◌||◌, Option, none, some, List, [], ◌∷◌, ltb, if◌then◌else◌,
  Text, lit, text_eq, is_empty,
}

pub data BindClass : Type 0 where
  loopback_class private_class public_class : BindClass

pub data TlsMode : Type 0 where
  no_tls static_tls acme_tls : TlsMode

-- net.IP, by what the code asks of it.
pub record Ip : Type 0 where
  pub is_loopback : Bool
  pub is_private : Bool
  pub is_link_local_unicast : Bool

-- A parsed certificate: its window, and the hosts that VerifyHostname lets it cover.
pub record Leaf : Type 0 where
  pub not_before : ℕ
  pub not_after : ℕ
  pub covers : Text → Bool

-- The packages that the validation calls, and the files. `x509_key_pair` checks that the key matches
-- and gives the encoded certificates of the chain.
pub record Parsers : Type 0 where
  pub split_host_port : Text → Option (Text × Text)
  pub parse_ip : Text → Option Ip
  pub read_file : Text → Option Text
  pub x509_key_pair : Text → Text → Option (List Text)
  pub parse_certificate : Text → Option Leaf
  pub equal_fold : Text → Text → Bool

-- The fields of Config that the validation reads, and then those it sets.
pub record Config : Type 0 where
  pub bind_address : Text
  pub tls_cert_file : Text
  pub tls_key_file : Text
  pub acme_enabled : Bool
  pub acme_domain : Text

pub record Resolved : Type 0 where
  pub reachability : Text
  pub tls_mode : TlsMode
  pub tls_cert : Option Leaf
  pub named_bind_host : Text

pub data ConfigError : Type 0 where
  not_host_port half_pair acme_on_private acme_without_domain acme_other_host : ConfigError
  acme_with_cert tls_required bad_certificate : ConfigError

pub data Outcome {ℓ} (A : Type ℓ) : Type ℓ where
  failed : ConfigError → Outcome A
  done : A → Outcome A

abbrev pub reachability_of : BindClass → Text
reachability_of loopback_class = lit "loopback"
reachability_of private_class = lit "private"
reachability_of public_class = lit "public"

module _ (p : Parsers) where
  unfoldable pub classify_bind_host : Text → BindClass
  classify_bind_host host =
      if text_eq host (lit "localhost") then loopback_class else elim (p.parse_ip host) [
        | none ↦ public_class
        | some ip ↦
            if ip.is_loopback
            then loopback_class
            else if ip.is_private || ip.is_link_local_unicast
            then private_class
            else public_class
      ]

  -- At the instant `now`.
  unfoldable pub load_and_validate_cert : Config → Text → ℕ → Outcome Leaf
  load_and_validate_cert cfg san_host now = elim (p.read_file cfg.tls_cert_file) [
    | none ↦ failed bad_certificate
    | some cert_pem ↦ elim (p.read_file cfg.tls_key_file) [
      | none ↦ failed bad_certificate
      | some key_pem ↦ elim (p.x509_key_pair cert_pem key_pem) [
        | none ↦ failed bad_certificate
        | some [] ↦ failed bad_certificate
        | some (first ∷ others) ↦ elim (p.parse_certificate first) [
          | none ↦ failed bad_certificate
          | some leaf ↦
              if ltb now leaf.not_before || ltb leaf.not_after now
              then failed bad_certificate
              else if not (is_empty san_host) && not (leaf.covers san_host)
              then failed bad_certificate
              else done leaf
        ]
      ]
    ]
  ]

  abbrev pub has_static_cert : Config → Bool
  has_static_cert cfg = not (is_empty cfg.tls_cert_file) && not (is_empty cfg.tls_key_file)

  abbrev pub with_cert : Resolved → Outcome Leaf → Outcome Resolved
  with_cert r (failed e) = failed e
  with_cert r (done leaf) = done (record r { tls_mode = static_tls; tls_cert = some leaf })

  -- The case of a loopback or private address.
  unfoldable pub validate_private : Config → Resolved → ℕ → Outcome Resolved
  unfolding load_and_validate_cert
  validate_private cfg r now =
      if cfg.acme_enabled
      then failed acme_on_private
      else if has_static_cert cfg
      then with_cert r (load_and_validate_cert cfg [] now)
      else done r

  -- The case of a public one.
  unfoldable pub validate_public : Config → Text → Resolved → ℕ → Outcome Resolved
  unfolding load_and_validate_cert
  validate_public cfg host r now =
      let is_name : Bool = elim (p.parse_ip host) [ none ↦ true | some ip ↦ false ] in
      let named : Resolved = if is_name then record r { named_bind_host = host } else r in
      if cfg.acme_enabled
      then (if is_empty cfg.acme_domain
          then failed acme_without_domain
          else if is_name && not (p.equal_fold host cfg.acme_domain)
          then failed acme_other_host
          else if has_static_cert cfg
          then failed acme_with_cert
          else done (record named { tls_mode = acme_tls }))
      else if not (has_static_cert cfg)
      then failed tls_required
      else with_cert named (load_and_validate_cert cfg (if is_name then host else []) now)

  abbrev differs : Bool → Bool → Bool
  differs true b = not b
  differs false b = b

  unfoldable pub validate_bind_address : Config → ℕ → Outcome Resolved
  unfolding classify_bind_host validate_private validate_public
  validate_bind_address cfg now = elim (p.split_host_port cfg.bind_address) [
    | none ↦ failed not_host_port
    | some (host, port) ↦
        let r : Resolved = record {
          reachability = reachability_of (classify_bind_host host);
          tls_mode = no_tls;
          tls_cert = none;
          named_bind_host = [];
        } in
        if differs (is_empty cfg.tls_cert_file) (is_empty cfg.tls_key_file)
        then failed half_pair
        else elim (classify_bind_host host) [
          | loopback_class ↦ validate_private cfg r now
          | private_class ↦ validate_private cfg r now
          | public_class ↦ validate_public cfg host r now
        ]
  ]
