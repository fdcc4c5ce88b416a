-- ===== src/Network/Binding.antt =====
-- What a configuration that passes validateBindAddress serves.
use alexandryn.Base.{
  ℕ, ◌≤◌, ◌≡◌, refl, subst, ◌≢◌, ◌⊎◌, inl, inr, Bool, true, false, not, ◌&&◌, ◌||◌, none, some, [],
  ◌∷◌, arith, ltb, if◌then◌else◌, Bool-cases, Option-cases, Text, is_empty,
}
use alexandryn.Network.{
  BindClass, loopback_class, private_class, public_class, TlsMode, no_tls, static_tls, acme_tls,
  Leaf, Parsers, Config, Resolved, reachability_of, Outcome, failed, done, ConfigError,
  bad_certificate, half_pair, acme_on_private, acme_without_domain, acme_other_host, acme_with_cert,
  tls_required, classify_bind_host, load_and_validate_cert, has_static_cert, with_cert,
  validate_private, validate_public, validate_bind_address,
}

if_done {ℓ} :
    {A : Type ℓ} (b : Bool) (o : Outcome A) (e : ConfigError) {x : A}
    → (if b then failed e else o) ≡ done x
    → (b ≡ false) × (o ≡ done x)
if_done true o e h = cc h
if_done false o e h = (refl, h)

done_eq {ℓ} : {A : Type ℓ} {x y : A} → ◌≡◌ {A = Outcome A} (done x) (done y) → x ≡ y
done_eq h = ground arith

module _ (p : Parsers) where
  abbrev InWindow : ℕ → Leaf → Type 0
  InWindow now leaf = (leaf.not_before ≤ now) × (now ≤ leaf.not_after)

  -- A host that is no address literal.
  abbrev IsName : Text → Type 0
  IsName host = p.parse_ip host ≡ none

  -- What each TLS mode promises.
  abbrev pub Serves : Text → ℕ → TlsMode → Resolved → Type 0
  Serves host now no_tls r = classify_bind_host p host ≢ public_class
  Serves host now static_tls r =
      (leaf : Leaf) × (r.tls_cert ≡ some leaf)
      × InWindow now leaf
      × (classify_bind_host p host ≡ public_class
          → IsName host
          → (host ≡ []) ⊎ (leaf.covers host ≡ true))
  Serves host now acme_tls r = classify_bind_host p host ≡ public_class

  cert_checked :
      (cfg : Config) (san : Text) (now : ℕ) (leaf : Leaf)
      → load_and_validate_cert p cfg san now ≡ done leaf
      → InWindow now leaf × ((san ≡ []) ⊎ (leaf.covers san ≡ true))
  unfolding load_and_validate_cert
  cert_checked cfg san now leaf h = elim (Option-cases (p.read_file cfg.tls_cert_file)) [
    | inl e ↦ cc (rw (e, load_and_validate_cert) at h)
    | inr (cert, e) ↦ elim (Option-cases (p.read_file cfg.tls_key_file)) [
      | inl f ↦ cc (rw (e, f, load_and_validate_cert) at h)
      | inr (key, f) ↦ elim (Option-cases (p.x509_key_pair cert key)) [
        | inl k ↦ cc (rw (e, f, k, load_and_validate_cert) at h)
        | inr ([], k) ↦ cc (rw (e, f, k, load_and_validate_cert) at h)
        | inr (first ∷ others, k) ↦ elim (Option-cases (p.parse_certificate first)) [
          | inl l ↦ cc (rw (e, f, k, l, load_and_validate_cert) at h)
          | inr (x, l) ↦ window x (rw (e, f, k, l, load_and_validate_cert) at h)
        ]
      ]
    ]
  ]
    where
      covered :
          (s : Text) (x : Leaf)
          → (not (is_empty s) && not (x.covers s)) ≡ false
          → (s ≡ []) ⊎ (x.covers s ≡ true)
      covered [] x h = inl refl
      covered (c ∷ s) x h = inr (ground arith)

      window :
          (x : Leaf)
          → (if ltb now x.not_before || ltb x.not_after now
              then failed bad_certificate
              else if not (is_empty san) && not (x.covers san)
              then failed bad_certificate
              else done x)
            ≡ done leaf
          → InWindow now leaf × ((san ≡ []) ⊎ (leaf.covers san ≡ true))
      window x h2 =
          let (inside, rest) =
            if_done (ltb now x.not_before || ltb x.not_after now) _ bad_certificate h2 in
          let (named, last) =
            if_done (not (is_empty san) && not (x.covers san)) (done x) bad_certificate rest in
          let same : x ≡ leaf = ground arith in
          subst (λ (y : Leaf). InWindow now y × ((san ≡ []) ⊎ (y.covers san ≡ true))) same
            ((ground arith, ground arith), covered san x named)

  certified :
      (host san : Text) (cfg : Config) (now : ℕ) (q r : Resolved)
      → with_cert p q (load_and_validate_cert p cfg san now) ≡ done r
      → (classify_bind_host p host ≡ public_class → IsName host → san ≡ host)
      → Serves host now r.tls_mode r
  certified host san cfg now q r h named = loaded (load_and_validate_cert p cfg san now) refl
    where
      loaded :
          (o : Outcome Leaf)
          → load_and_validate_cert p cfg san now ≡ o
          → Serves host now r.tls_mode r
      loaded (failed e) l = cc (rw l at h)
      loaded (done leaf) l =
          let same : ◌≡◌ {A = Outcome Resolved}
              (done (record q { tls_mode = static_tls; tls_cert = some leaf })) (done r) =
            rw l at h in
          let these : record q { tls_mode = static_tls; tls_cert = some leaf } ≡ r = ground arith in
          let (inside, covers) = cert_checked cfg san now leaf l in
          subst (λ (y : Resolved). Serves host now y.tls_mode y) these
            (
              leaf,
              refl,
              inside,
              λ c n. subst (λ (s : Text). (s ≡ []) ⊎ (leaf.covers s ≡ true)) (named c n) covers,
            )

  private-Serves :
      (host : Text) (cfg : Config) (now : ℕ) (q r : Resolved)
      → classify_bind_host p host ≢ public_class
      → q.tls_mode ≡ no_tls
      → validate_private p cfg q now ≡ done r
      → Serves host now r.tls_mode r
  unfolding validate_private
  private-Serves host cfg now q r inner plain h =
      let (off, rest) = if_done cfg.acme_enabled _ acme_on_private h in
      elim (Bool-cases (has_static_cert p cfg)) [
        | inl cert ↦ certified host [] cfg now q r (rw cert at rest) (λ c n. absurd (inner c))
        | inr bare ↦
            let same : q ≡ r = ground arith in
            subst (λ (y : Resolved). Serves host now y.tls_mode y) same (rw plain inner)
      ]

  public-Serves :
      (host : Text) (cfg : Config) (now : ℕ) (q r : Resolved)
      → classify_bind_host p host ≡ public_class
      → validate_public p cfg host q now ≡ done r
      → Serves host now r.tls_mode r
  unfolding validate_public
  public-Serves host cfg now q r outer h = elim (Bool-cases cfg.acme_enabled) [
    | inl acme ↦
        let (_, g) =
          if_done (is_empty cfg.acme_domain) _ acme_without_domain
            (rw (acme, validate_public) at h) in
        let (_, k) = if_done (_ && not (p.equal_fold host cfg.acme_domain)) _ acme_other_host g in
        let (_, l) = if_done (has_static_cert p cfg) _ acme_with_cert k in
        subst (λ (y : Resolved). Serves host now y.tls_mode y) (done_eq l) outer
    | inr off ↦
        let (_, g) =
          if_done (not (has_static_cert p cfg)) _ tls_required (rw (off, validate_public) at h) in
        certified host _ cfg now
          (if elim (p.parse_ip host) as (λ x. Bool) [ none ↦ true | some ip ↦ false ]
            then record q { named_bind_host = host }
            else q)
          r g (λ c name. rw name refl)
  ]

  -- A configuration that validation accepts never serves plain HTTP on an address that is not loopback,
  -- private or link-local: without TLS the host is not public. In static mode the certificate that is
  -- served is within its validity window, and covers a public host given by name. ACME is on only for a
  -- public host.
  pub validate_bind_address-Serves :
      (cfg : Config) (now : ℕ) (r : Resolved)
      → validate_bind_address p cfg now ≡ done r
      → (host : Text) × (port : Text) × (p.split_host_port cfg.bind_address ≡ some (host, port))
        × Serves host now r.tls_mode r
  unfolding validate_bind_address
  validate_bind_address-Serves cfg now r h =
      elim (Option-cases (p.split_host_port cfg.bind_address)) [
        | inl e ↦ cc (rw (e, validate_bind_address) at h)
        | inr ((host, port), e) ↦ (
          host,
          port,
          e,
          by_class host (classify_bind_host p host) refl
              (if_done _ _ half_pair (rw (e, validate_bind_address) at h)).1,
        )
      ]
    where
      start : Text → Resolved
      start host = record {
        reachability = reachability_of (classify_bind_host p host);
        tls_mode = no_tls;
        tls_cert = none;
        named_bind_host = [];
      }

      by_class :
          (host : Text) (c : BindClass)
          → classify_bind_host p host ≡ c
          → elim (classify_bind_host p host) as (λ x. Outcome Resolved) [
            | loopback_class ↦ validate_private p cfg (start host) now
            | private_class ↦ validate_private p cfg (start host) now
            | public_class ↦ validate_public p cfg host (start host) now
          ]
            ≡ done r
          → Serves host now r.tls_mode r
      by_class host loopback_class c g =
          private-Serves host cfg now (start host) r (λ x. cc) refl (rw c at g)
      by_class host private_class c g =
          private-Serves host cfg now (start host) r (λ x. cc) refl (rw c at g)
      by_class host public_class c g = public-Serves host cfg now (start host) r c (rw c at g)
