-- ===== src/Network/Origins.antt =====
-- internal/transport/http/origin_validation.go: LazyOriginValidation, as the test that lets a request
-- pass to the next handler. `dynamic` is what GetAllowedOrigins gives, empty without a reference. A URL
-- is what url.Parse gives of its scheme and host.
use alexandryn.Base.{
  zero, suc, ◌≡◌, refl, ap, ◌≢◌, ◌↔◌, ◌⊎◌, inl, inr, Bool, true, false, not, ◌||◌, Option, none,
  some, List, [], ◌∷◌, ◌++◌, arith, if◌then◌else◌, Bool-cases, Option-cases, any, ℤ, pos, negsuc,
  Text, lit, text_eq, is_empty,
}

pub record Url : Type 0 where
  pub scheme : Text
  pub host : Text

-- The headers and the body length that are read; a missing header is empty, and -1 is a length unknown.
pub record Request : Type 0 where
  pub origin : Text
  pub referer : Text
  pub content_length : ℤ

abbrev in_set : List Text → List Text → Text → Bool
in_set allowed dynamic origin = any (λ o. text_eq o origin) (allowed ++ dynamic)

not_empty : (s t : Text) → t ≡ [] → (is_empty s || is_empty t) ≡ false → ⊥
not_empty s t e full = let blank : is_empty t ≡ true = ap is_empty e in ground arith

filled : (s : Text) → s ≢ [] → is_empty s ≡ false
filled [] n = absurd (n refl)
filled (c ∷ s) n = refl

-- `ContentLength != 0` is its negation.
abbrev is_zero : ℤ → Bool
is_zero (pos zero) = true
is_zero z = false

sized : (z : ℤ) → z ≢ pos 0 → is_zero z ≡ false
sized (pos zero) n = absurd (n refl)
sized (pos (suc k)) n = refl
sized (negsuc k) n = refl

module _ (parse : Text → Option Url) (to_lower : Text → Text) (allowed dynamic : List Text) where
  abbrev pub origin_of : Url → Text
  origin_of u = u.scheme ++ (lit "://" ++ to_lower u.host)

  origin_allowed_from_referer : Url → Bool
  origin_allowed_from_referer u =
      if is_empty u.scheme || is_empty u.host then false else in_set allowed dynamic (origin_of u)

  unfoldable pub passes : Request → Bool
  unfolding origin_allowed_from_referer
  passes r =
      if not (is_empty r.origin)
      then in_set allowed dynamic r.origin
      else if is_zero r.content_length
      then true
      else if is_empty r.referer
      then true
      else elim (parse r.referer) [ none ↦ false | some u ↦ origin_allowed_from_referer u ]

  abbrev pub Listed : Text → Type 0
  Listed origin = in_set allowed dynamic origin ≡ true

  -- A request that names its origin passes exactly when the origin is listed, whatever else it says. One
  -- that does not, but has a body and names a referer, passes exactly when the referer parses with a
  -- scheme and a host that make a listed origin, the host in small letters. Any other passes.
  pub passes_iff :
      (r : Request)
      → (r.origin ≢ [] → (passes r ≡ true) ↔ Listed r.origin)
        × (r.origin ≡ []
            → r.content_length ≢ pos 0
            → r.referer ≢ []
            → (passes r ≡ true) ↔ (
                (u : Url) × (parse r.referer ≡ some u)
                × (u.scheme ≢ [])
                × (u.host ≢ [])
                × Listed (origin_of u)))
        × (r.origin ≡ [] → (r.content_length ≡ pos 0) ⊎ (r.referer ≡ []) → passes r ≡ true)
  unfolding passes origin_allowed_from_referer
  passes_iff r = (named, referred, neither)
    where
      named : r.origin ≢ [] → (passes r ≡ true) ↔ Listed r.origin
      named given =
          let full = filled r.origin given in
          (λ h. rw (full, passes) at h, λ h. rw (full, passes) h)

      allows :
          (u : Url)
          → origin_allowed_from_referer u ≡ true
          → (u.scheme ≢ []) × (u.host ≢ []) × Listed (origin_of u)
      allows u h = elim (Bool-cases (is_empty u.scheme || is_empty u.host)) [
        | inl bare ↦ cc (rw (bare, origin_allowed_from_referer) at h)
        | inr full ↦ (
          (λ e. cc (rw e at full)),
          (λ e. not_empty u.scheme u.host e full),
          rw (full, origin_allowed_from_referer) at h,
        )
      ]

      referred :
          r.origin ≡ []
          → r.content_length ≢ pos 0
          → r.referer ≢ []
          → (passes r ≡ true) ↔ (
              (u : Url) × (parse r.referer ≡ some u)
              × (u.scheme ≢ [])
              × (u.host ≢ [])
              × Listed (origin_of u))
      referred bare body given =
          let long = sized r.content_length body in
          let full = filled r.referer given in
          (
            (λ h. elim (Option-cases (parse r.referer)) [
              | inl e ↦ cc (rw (bare, long, full, e, passes) at h)
              | inr (u, e) ↦
                  let (x, y, z) = allows u (rw (bare, long, full, e, passes) at h) in
                  (u, e, x, y, z)
            ]),
            λ (u, e, scheme, host, listed).
                let a = filled u.scheme scheme in
                let b = filled u.host host in
                rw (bare, passes, long, full, e, origin_allowed_from_referer, a, b) listed,
          )

      neither : r.origin ≡ [] → (r.content_length ≡ pos 0) ⊎ (r.referer ≡ []) → passes r ≡ true
      neither bare (inl short) = rw (bare, passes, short) refl
      neither bare (inr silent) = elim (Bool-cases (is_zero r.content_length)) [
        | inl y ↦ rw (bare, passes, y) refl
        | inr n ↦ rw (bare, passes, n, silent) refl
      ]
