-- ===== src/Network/Clients.antt =====
-- internal/transport/http/client_ip.go: which network a request is counted for, and whether it came
-- over TLS. netip and net.SplitHostPort are parameters; an address is what netip gives.
use mathlib.Core.List.{reverse}
use alexandryn.Base.{
  ℕ, ◌≡◌, refl, sym, ◌∙◌, inl, inr, Bool, true, false, not, ◌||◌, Option, none, some, List, [], ◌∷◌,
  ◌++◌, ◌==◌, if◌then◌else◌, Option-cases, any, Text, lit, trim_space,
}

-- `A` is netip.Addr and `P` netip.Prefix. `prefix64` is the text of Prefix(64), when there is one.
pub record Addresses (A P : Type 0) : Type 0 where
  pub split_host_port : Text → Option (Text × Text)
  pub parse_addr : Text → Option A
  pub unmap : A → A
  pub is6 : A → Bool
  pub prefix64 : A → Option Text
  pub string_of : A → Text
  pub contains : P → A → Bool
  pub equal_fold : Text → Text → Bool

-- The parts of http.Request that are read: `over_tls` is `r.TLS != nil`.
pub record Request : Type 0 where
  pub remote_addr : Text
  pub over_tls : Bool
  pub forwarded_for : Text
  pub forwarded_proto : Text

-- strings.Trim(s, "[]")
abbrev is_bracket : ℕ → Bool
is_bracket c = c == 91 || c == 93

abbrev trim_brackets_left : Text → Text
trim_brackets_left [] = []
trim_brackets_left (c ∷ s) = let rest = trim_brackets_left s in if is_bracket c then rest else c ∷ s

-- The last part of strings.Split(s, ","), and the first of strings.Cut.
abbrev last_part : Text → Text → Text
last_part part [] = part
last_part part (c ∷ s) = if c == 44 then last_part [] s else last_part (part ++ (c ∷ [])) s

abbrev first_part : Text → Text
first_part [] = []
first_part (c ∷ s) = let rest = first_part s in if c == 44 then [] else c ∷ rest

module _ {A P : Type 0} (net : Addresses A P) where
  host_only : Text → Text
  host_only remote_addr = elim (net.split_host_port remote_addr) [
    | some (host, port) ↦ host
    | none ↦ reverse (trim_brackets_left (reverse (trim_brackets_left remote_addr)))
  ]

  unfoldable pub addr_in_any : A → List P → Bool
  addr_in_any a prefixes = any (λ prefix. net.contains prefix (net.unmap a)) prefixes

  last_forwarded_hop : Text → Option A
  last_forwarded_hop [] = none
  last_forwarded_hop (c ∷ s) = elim (net.parse_addr (trim_space (last_part [] (c ∷ s)))) [
    | none ↦ none
    | some addr ↦ some (net.unmap addr)
  ]

  rate_limit_key : A → Text
  rate_limit_key a =
      if net.is6 (net.unmap a)
      then elim (net.prefix64 (net.unmap a)) [
        | some text ↦ text
        | none ↦ net.string_of (net.unmap a)
      ]
      else net.string_of (net.unmap a)

  -- `trusted` is what SetTrustedProxyCIDRs stored, the empty list when nothing.
  unfoldable pub client_ip : List P → Request → Text
  unfolding addr_in_any last_forwarded_hop rate_limit_key host_only
  client_ip trusted r = elim (net.parse_addr (host_only r.remote_addr)) [
    | none ↦ host_only r.remote_addr
    | some addr ↦
        if addr_in_any addr trusted
        then elim (last_forwarded_hop r.forwarded_for) [
          | some hop ↦ rate_limit_key hop
          | none ↦ rate_limit_key addr
        ]
        else rate_limit_key addr
  ]

  unfoldable pub request_is_https : List P → Request → Bool
  unfolding addr_in_any host_only
  request_is_https trusted r =
      if r.over_tls then true else elim (net.parse_addr (host_only r.remote_addr)) [
        | none ↦ false
        | some addr ↦
            if not (addr_in_any addr trusted)
            then false
            else net.equal_fold (trim_space (first_part r.forwarded_proto)) (lit "https")
      ]

  -- What a peer can say of itself does not count unless a trusted proxy passed it on: two requests from
  -- one host outside the trusted ranges, from whatever ports, get the same rate-limiting key, and the
  -- same answer on TLS when both or neither came over it, whatever forwarding headers they carry.
  pub client_ip-untrusted :
      (trusted : List P) (r s : Request) (host port1 port2 : Text)
      → net.split_host_port r.remote_addr ≡ some (host, port1)
      → net.split_host_port s.remote_addr ≡ some (host, port2)
      → ((a : A) → net.parse_addr host ≡ some a → addr_in_any a trusted ≡ false)
      → (client_ip trusted r ≡ client_ip trusted s)
        × (r.over_tls ≡ s.over_tls → request_is_https trusted r ≡ request_is_https trusted s)
  unfolding client_ip request_is_https
  client_ip-untrusted trusted r s host port1 port2 first second outside =
      let one : host_only r.remote_addr ≡ host = unfold host_only in rw (first, host_only) refl in
      let two : host_only s.remote_addr ≡ host = unfold host_only in rw (second, host_only) refl in
      elim (Option-cases (net.parse_addr host)) [
        | inl e ↦ (
          rw (client_ip, one, two, e) (one ∙ sym two),
          λ t. rw (t, request_is_https, one, two, e) refl,
        )
        | inr (a, e) ↦
            let off = outside a e in
            (
              rw (client_ip, one, two, e, off) refl,
              λ t. rw (t, request_is_https, one, two, e, off) refl,
            )
      ]
