-- ===== src/Network/Samples.antt =====
-- Network policy at concrete addresses, over small parsers.
use alexandryn.Base.{
  ◌≡◌, refl, subst, ◌≢◌, ◌↔◌, ◌⊎◌, true, false, Option, none, some, List, [], ◌∷◌, arith, ◌==◌,
  if◌then◌else◌, any, pos, negsuc, Text, lit, text_eq,
}
use alexandryn.Network.{Leaf, Parsers, Config, static_tls, Resolved, done, validate_bind_address}
use alexandryn.Network.Binding.{Serves, validate_bind_address-Serves}
use alexandryn.Network.Clients.{
  Addresses, client_ip, request_is_https, addr_in_any, client_ip-untrusted,
}
use alexandryn.Network.Clients
use alexandryn.Network.Origins.{Url, Listed, origin_of, passes, passes_iff}
use alexandryn.Network.Origins

abbrev valid_leaf : Leaf
valid_leaf = record {
  not_before = 100;
  not_after = 900;
  covers = λ host. text_eq host (lit "books.example");
}

abbrev parsers : Parsers
parsers = record {
  split_host_port = λ s. some (s, lit "443");
  parse_ip = λ s. none;
  read_file = λ name. some name;
  x509_key_pair = λ cert key. some (cert ∷ []);
  parse_certificate = λ der. some valid_leaf;
  equal_fold = text_eq;
}

abbrev public_config : Config
public_config = record {
  bind_address = lit "books.example";
  tls_cert_file = lit "cert";
  tls_key_file = lit "key";
  acme_enabled = false;
  acme_domain = [];
}

abbrev resolved : Resolved
resolved = record {
  reachability = lit "public";
  tls_mode = static_tls;
  tls_cert = some valid_leaf;
  named_bind_host = lit "books.example";
}

public_config-done : validate_bind_address parsers public_config 500 ≡ done resolved
unfolding validate_bind_address text_eq
public_config-done = refl

validate_bind_address-Serves_example :
    (host : Text) × (port : Text) × (parsers.split_host_port (lit "books.example")
      ≡ some (host, port))
    × Serves parsers host 500 static_tls resolved
validate_bind_address-Serves_example =
    validate_bind_address-Serves parsers public_config 500 resolved public_config-done

-- The text before the first colon, and the text after it.
abbrev at_colon : Text → Option (Text × Text)
at_colon [] = none
at_colon (c ∷ s) =
    let rest = at_colon s in
    if c == 58
    then some ([], s)
    else elim rest [ none ↦ none | some (host, port) ↦ some (c ∷ host, port) ]

abbrev addresses : Addresses Text Text
addresses = record {
  split_host_port = at_colon;
  parse_addr = λ s. some s;
  unmap = λ a. a;
  is6 = λ a. false;
  prefix64 = λ a. none;
  string_of = λ a. a;
  contains = text_eq;
  equal_fold = text_eq;
}

abbrev honest : Clients.Request
honest = record {
  remote_addr = lit "203.0.113.7:4711";
  over_tls = false;
  forwarded_for = [];
  forwarded_proto = [];
}

abbrev boasting : Clients.Request
boasting = record {
  remote_addr = lit "203.0.113.7:52001";
  over_tls = false;
  forwarded_for = lit "1.2.3.4";
  forwarded_proto = lit "https";
}

abbrev proxies : List Text
proxies = lit "10.0.0.1" ∷ []

client_ip-untrusted_example :
    (client_ip addresses proxies boasting ≡ client_ip addresses proxies honest)
    × (boasting.over_tls ≡ honest.over_tls
        → request_is_https addresses proxies boasting ≡ request_is_https addresses proxies honest)
client_ip-untrusted_example =
    client_ip-untrusted addresses proxies boasting honest (lit "203.0.113.7") (lit "52001")
      (lit "4711") refl refl outside
  where
    outside :
        (a : Text)
        → addresses.parse_addr (lit "203.0.113.7") ≡ some a
        → addr_in_any addresses a proxies ≡ false
    outside a e =
        let opened : ◌≡◌ {A = Option Text} (some (lit "203.0.113.7")) (some a) = e in
        let same : lit "203.0.113.7" ≡ a = ground arith in
        subst (λ (x : Text). addr_in_any addresses x proxies ≡ false) same
          (unfold addr_in_any in unfold text_eq in unfold any in refl)

abbrev parse_url : Text → Option Url
parse_url s = some (record { scheme = lit "https"; host = s })

abbrev from_page : Origins.Request
from_page = record { origin = []; referer = lit "books.example"; content_length = negsuc 0 }

abbrev served : List Text
served = lit "https://books.example" ∷ []

passes_iff_run :
    (from_page.origin ≢ []
      → (passes parse_url (λ s. s) served [] from_page ≡ true)
        ↔ Listed parse_url (λ s. s) served [] from_page.origin)
    × (from_page.origin ≡ []
        → from_page.content_length ≢ pos 0
        → from_page.referer ≢ []
        → (passes parse_url (λ s. s) served [] from_page ≡ true) ↔ (
            (u : Url) × (parse_url from_page.referer ≡ some u)
            × (u.scheme ≢ [])
            × (u.host ≢ [])
            × Listed parse_url (λ s. s) served [] (origin_of parse_url (λ s. s) served [] u)))
    × (from_page.origin ≡ []
        → (from_page.content_length ≡ pos 0) ⊎ (from_page.referer ≡ [])
        → passes parse_url (λ s. s) served [] from_page ≡ true)
passes_iff_run = passes_iff parse_url (λ s. s) served [] from_page
