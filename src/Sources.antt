-- ===== src/Sources.antt =====
-- internal/adapters/sources: the origin check of origin.go in this file, and the signed continuation
-- tokens of cursor.go in the child. url.Parse, HMAC, base64 and encoding/json are parameters.
pub mod Cursors
mod Samples
use alexandryn.Base.{
  ◌-◌, ◌≡◌, refl, ap, ◌↔◌, inl, inr, Bool, true, false, not, ◌&&◌, Option, none, some,
  if◌then◌else◌, Option-cases, &&-true, Text, lit, text_eq, text_eq_iff, text_eq_refl, trim_space,
  is_empty,
}

-- What url.Parse, Hostname and Port give of an address, and the comparison of strings.EqualFold, as
-- the folded text that two strings share when they are equal under it.
pub record Url : Type 0 where
  pub scheme : Text
  pub hostname : Text
  pub port : Text

pub record OriginParts : Type 0 where
  pub scheme : Text
  pub host : Text
  pub port : Text

module _ (parse : Text → Option Url) (fold : Text → Text) where
  unfoldable pub parse_absolute_http : Text → Option OriginParts
  parse_absolute_http raw = elim (parse (trim_space raw)) [
    | none ↦ none
    | some u ↦
        if not (text_eq u.scheme (lit "http")) && not (text_eq u.scheme (lit "https"))
        then none
        else if is_empty u.hostname
        then none
        else some (record {
          scheme = u.scheme;
          host = u.hostname;
          port =
              if is_empty u.port
              then (if text_eq u.scheme (lit "https") then lit "443" else lit "80")
              else u.port;
        })
  ]

  abbrev same_parts : OriginParts → OriginParts → Bool
  same_parts c o =
      text_eq c.scheme o.scheme && (text_eq (fold c.host) (fold o.host) && text_eq c.port o.port)

  unfoldable pub same_origin : Text → Text → Bool
  unfolding parse_absolute_http
  same_origin configured candidate = elim (parse_absolute_http configured) [
    | none ↦ false
    | some c ↦ elim (parse_absolute_http candidate) [ none ↦ false | some o ↦ same_parts c o ]
  ]

  -- The effective origin of an address: scheme, folded host and port.
  abbrev pub effective : OriginParts → OriginParts
  effective o = record o { host = fold o.host }

  agree : (c o : OriginParts) → same_parts c o ≡ true → effective c ≡ effective o
  agree c o h =
      let (s, rest) = &&-true (text_eq c.scheme o.scheme) _ h in
      let (t, u) = &&-true (text_eq (fold c.host) (fold o.host)) (text_eq c.port o.port) rest in
      rw
        (
          (text_eq_iff c.scheme o.scheme).0 s,
          (text_eq_iff (fold c.host) (fold o.host)).0 t,
          (text_eq_iff c.port o.port).0 u,
        )
        refl

  alike : (c o : OriginParts) → effective c ≡ effective o → same_parts c o ≡ true
  alike c o h =
      rw
        (
          ap (λ (x : OriginParts). x.scheme) h,
          ap (λ (x : OriginParts). x.host) h,
          ap (λ (x : OriginParts). x.port) h,
          text_eq_refl o.scheme,
          text_eq_refl (fold o.host),
          text_eq_refl o.port,
        )
        refl

  -- Two addresses are of one origin exactly when both are absolute HTTP or HTTPS addresses and their
  -- effective origins, default ports filled in and hosts folded, are equal: an equivalence on the
  -- addresses that are of an origin at all, and never true of any other address.
  pub same_origin_iff :
      (a b : Text)
      → (same_origin a b ≡ true) ↔ (
          (c o : OriginParts) × (parse_absolute_http a ≡ some c)
          × (parse_absolute_http b ≡ some o)
          × (effective c ≡ effective o))
  unfolding same_origin
  same_origin_iff a b = (forward, λ (c, o, e, f, same). rw (same_origin, e, f) (alike c o same))
    where
      forward :
          same_origin a b ≡ true
          → (c : OriginParts) × (o : OriginParts) × (parse_absolute_http a ≡ some c)
            × (parse_absolute_http b ≡ some o)
            × (effective c ≡ effective o)
      forward h = elim (Option-cases (parse_absolute_http a)) [
        | inl e ↦ cc (rw (e, same_origin) at h)
        | inr (c, e) ↦ elim (Option-cases (parse_absolute_http b)) [
          | inl f ↦ cc (rw (e, f, same_origin) at h)
          | inr (o, f) ↦ (c, o, e, f, agree c o (rw (e, f, same_origin) at h))
        ]
      ]
