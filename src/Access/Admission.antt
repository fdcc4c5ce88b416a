-- ===== src/Access/Admission.antt =====
-- What a request that reaches a handler has shown.
use alexandryn.Base.{
  ℕ, ◌≡◌, refl, sym, ap, ◌∙◌, subst, ◌⊎◌, inl, inr, true, false, not, ◌&&◌, ◌||◌, Option, none,
  some, List, [], ◌∷◌, arith, Bool-cases, Option-cases, &&-true, any, pos, Text, lit, text_eq,
  text_eq_iff, text_eq_refl, is_empty,
}
use alexandryn.Signing.{ReaderContentClaims, Claims, Primitives, JwtSigner, verify_access_token}
use alexandryn.Signing.Grants.{GrantSigner, verify_reader}
use alexandryn.Signing.Envelope.{if_some}
use alexandryn.Access.{
  Request, AuthenticatedUser, Passage, anonymous, admitted, unauthorized_answer, forbidden_answer,
  cut_prefix, is_public_path, library_in_claims, reader_content_edition_from_path,
  reader_content_grant, grant_user, claims_user, with_library, by_token, auth_middleware, Answer,
  handled, require_role,
}

module _ (p : Primitives) (signer : JwtSigner) where
  -- A verified access token whose holder is the user, and an active library of the token's; or none at
  -- all, for the list of libraries alone.
  abbrev pub ByToken : Request → ℕ → AuthenticatedUser → Text → Type 0
  ByToken r now user library =
      (token : Text) × (c : Claims) × (cut_prefix r.authorization (lit "Bearer ") ≡ some token)
      × (verify_access_token p signer token (pos now) ≡ some c)
      × (user ≡ claims_user p c)
      × ((library_in_claims library c.libraries ≡ true)
          ⊎ ((library ≡ [])
              × (c.libraries ≡ [])
              × (text_eq r.path (lit "/api/v1/libraries") ≡ true)
              × (text_eq r.method (lit "GET") ≡ true)))

  -- A verified grant for the edition whose content the path names.
  abbrev pub ByGrant : GrantSigner → Request → ℕ → AuthenticatedUser → Text → Type 0
  ByGrant g r now user library =
      (value : Text) × (c : ReaderContentClaims) × (r.cookie ≡ some value)
      × (verify_reader p g value now ≡ some c)
      × (reader_content_edition_from_path r.path ≡ some c.edition_id)
      × ((text_eq r.method (lit "GET") || text_eq r.method (lit "HEAD")) ≡ true)
      × (r.authorization ≡ [])
      × (user ≡ grant_user p c)
      × (library ≡ c.library_id)

  admitted_eq :
      {u v : AuthenticatedUser} {l m : Text}
      → ◌≡◌ {A = Passage} (admitted u l) (admitted v m)
      → (v ≡ u) × (m ≡ l)
  admitted_eq h = (ground arith, ground arith)

  with_library_cases :
      (r : Request) (c : Claims) (user : AuthenticatedUser) (library : Text)
      → with_library p r c ≡ admitted user library
      → (user ≡ claims_user p c)
        × ((library_in_claims library c.libraries ≡ true)
            ⊎ ((library ≡ [])
                × (c.libraries ≡ [])
                × (text_eq r.path (lit "/api/v1/libraries") ≡ true)
                × (text_eq r.method (lit "GET") ≡ true)))
  unfolding with_library
  with_library_cases r c user library h = elim (Bool-cases (is_empty r.library_header)) [
    | inr named ↦ elim (Bool-cases (library_in_claims r.library_header c.libraries)) [
      | inr out ↦ cc (rw (named, out, with_library) at h)
      | inl member ↦
          let (u, l) = admitted_eq (rw (named, member, with_library) at h) in (u, inl (rw l member))
    ]
    | inl bare ↦ listed bare c.libraries refl
  ]
    where
      listed :
          is_empty r.library_header ≡ true
          → (ls : List Text) → c.libraries ≡ ls
          → (user ≡ claims_user p c)
            × ((library_in_claims library c.libraries ≡ true)
                ⊎ ((library ≡ [])
                    × (c.libraries ≡ [])
                    × (text_eq r.path (lit "/api/v1/libraries") ≡ true)
                    × (text_eq r.method (lit "GET") ≡ true)))
      listed bare [] e =
          elim (Bool-cases
            (text_eq r.path (lit "/api/v1/libraries") && text_eq r.method (lit "GET"))) [
              | inr other ↦ cc (rw (bare, e, other, with_library) at h)
              | inl list ↦
                  let (u, l) = admitted_eq (rw (bare, e, list, with_library) at h) in
                  let (path, method) =
                    &&-true (text_eq r.path (lit "/api/v1/libraries"))
                      (text_eq r.method (lit "GET")) list in
                  (u, inr (l, e, path, method))
            ]
      listed bare (first ∷ rest) e =
          let (u, l) = admitted_eq (rw (bare, e, with_library) at h) in
          (u, inl (rw (l, e) (unfold library_in_claims any in rw (text_eq_refl first) refl)))

  by_token_cases :
      (r : Request) (now : ℕ) (user : AuthenticatedUser) (library : Text)
      → by_token p signer r now ≡ admitted user library
      → ByToken r now user library
  unfolding by_token
  by_token_cases r now user library h =
      elim (Option-cases (cut_prefix r.authorization (lit "Bearer "))) [
        | inl e ↦ cc (rw (e, by_token) at h)
        | inr (token, e) ↦ elim (Option-cases (verify_access_token p signer token (pos now))) [
          | inl f ↦ cc (rw (e, f, by_token) at h)
          | inr (c, f) ↦
              let (u, l) = with_library_cases r c user library (rw (e, f, by_token) at h) in
              (token, c, e, f, u, l)
        ]
      ]

  empty_text : (s : Text) → is_empty s ≡ true → s ≡ []
  empty_text [] e = refl
  empty_text (x ∷ s) e = cc e

  grant_cases :
      (g : GrantSigner) (r : Request) (now : ℕ) (c : ReaderContentClaims)
      → reader_content_grant p g r now ≡ some c
      → (value : Text) × (r.cookie ≡ some value)
        × (verify_reader p g value now ≡ some c)
        × (reader_content_edition_from_path r.path ≡ some c.edition_id)
        × ((text_eq r.method (lit "GET") || text_eq r.method (lit "HEAD")) ≡ true)
  unfolding reader_content_grant
  grant_cases g r now c h =
      let (method, rest) =
        if_some (not (text_eq r.method (lit "GET")) && not (text_eq r.method (lit "HEAD"))) _ h in
      elim (Option-cases (reader_content_edition_from_path r.path)) [
        | inl e ↦ cc (rw e at rest)
        | inr (edition, e) ↦ elim (Option-cases r.cookie) [
          | inl f ↦ cc (rw (e, f) at rest)
          | inr (value, f) ↦
              let (_, next) = if_some (is_empty value) _ (rw (e, f) at rest) in
              elim (Option-cases (verify_reader p g value now)) [
                | inl k ↦ cc (rw k at next)
                | inr (d, k) ↦
                    let (own, last) =
                      if_some (not (text_eq d.edition_id edition)) (some d) (rw k at next) in
                    let named : d.edition_id ≡ edition =
                      (text_eq_iff d.edition_id edition).0 (ground arith) in
                    let same : d ≡ c = ground arith in
                    (
                      value,
                      f,
                      k ∙ last,
                      e ∙ ap some (sym named ∙ ap (λ (x : ReaderContentClaims). x.edition_id) same),
                      ground arith,
                    )
              ]
        ]
      ]

  -- A request that reaches a handler with a user is not on a public path, and has either shown an access
  -- token that verifies, of that very user, with an active library that the token lists or the list of
  -- libraries asked for without any; or, without an authorization header, a reader-content grant that
  -- verifies, by GET or HEAD, for the very edition that the path names, with the grant's library active.
  pub auth_middleware-admitted :
      (grants : Option GrantSigner) (r : Request) (now : ℕ) (user : AuthenticatedUser)
      (library : Text)
      → auth_middleware p signer grants r now ≡ admitted user library
      → (is_public_path r.path ≡ false)
        × (ByToken r now user library
            ⊎ ((g : GrantSigner) × (grants ≡ some g) × ByGrant g r now user library))
  unfolding auth_middleware
  auth_middleware-admitted grants r now user library h = elim (Bool-cases (is_public_path r.path)) [
    | inl public ↦ cc (rw (public, auth_middleware) at h)
    | inr private ↦ (
      private,
      elim (Bool-cases (is_empty r.authorization)) [
        | inr shown ↦
            inl (by_token_cases r now user library (rw (private, shown, auth_middleware) at h))
        | inl bare ↦ without bare grants refl (rw (private, bare, auth_middleware) at h)
      ],
    )
  ]
    where
      without :
          is_empty r.authorization ≡ true
          → (o : Option GrantSigner) → grants ≡ o
          → elim grants as (λ x. Passage) [
            | none ↦ by_token p signer r now
            | some g ↦ elim (reader_content_grant p g r now) as (λ x. Passage) [
              | none ↦ by_token p signer r now
              | some c ↦ admitted (grant_user p c) c.library_id
            ]
          ]
            ≡ admitted user library
          → ByToken r now user library
            ⊎ ((g : GrantSigner) × (grants ≡ some g) × ByGrant g r now user library)
      without bare none e k = inl (by_token_cases r now user library (rw e at k))
      without bare (some g) e k = elim (Option-cases (reader_content_grant p g r now)) [
        | inl f ↦ inl (by_token_cases r now user library (rw (e, f) at k))
        | inr (c, f) ↦
            let (u, l) = admitted_eq (rw (e, f) at k) in
            let (value, cookie, verified, edition, method) = grant_cases g r now c f in
            inr (
              g,
              e,
              (value, c, cookie, verified, edition, method, empty_text r.authorization bare, u, l),
            )
      ]

  -- A route that asks for roles, none of them the empty one, is reached only on a path that is not public
  -- and with an access token whose holder has one of them: a reader-content grant alone does not do.
  pub require_role-auth_middleware :
      (grants : Option GrantSigner) (roles : List Text) (r : Request) (now : ℕ)
      (user : AuthenticatedUser) (library : Text)
      → any (λ allowed. text_eq [] allowed) roles ≡ false
      → require_role roles (auth_middleware p signer grants r now) ≡ handled user library
      → (is_public_path r.path ≡ false)
        × ByToken r now user library
        × (any (λ allowed. text_eq user.role allowed) roles ≡ true)
  unfolding require_role
  require_role-auth_middleware grants roles r now user library no_empty h =
      through (auth_middleware p signer grants r now) refl
    where
      through :
          (a : Passage)
          → auth_middleware p signer grants r now ≡ a
          → (is_public_path r.path ≡ false)
            × ByToken r now user library
            × (any (λ allowed. text_eq user.role allowed) roles ≡ true)
      through anonymous e = cc (rw (e, require_role) at h)
      through unauthorized_answer e = cc (rw (e, require_role) at h)
      through forbidden_answer e = cc (rw (e, require_role) at h)
      through (admitted u l) e = elim (Bool-cases (any (λ allowed. text_eq u.role allowed) roles)) [
        | inr lacks ↦ cc (rw (e, require_role, lacks) at h)
        | inl fits ↦
            let k : ◌≡◌ {A = Answer} (handled u l) (handled user library) =
              rw (e, require_role, fits) at h in
            let same_user : u ≡ user = ground arith in
            let same_library : l ≡ library = ground arith in
            let role =
              subst
                (λ (x : AuthenticatedUser). any (λ allowed. text_eq x.role allowed) roles ≡ true)
                same_user fits in
            let (private, how) =
              auth_middleware-admitted grants r now user library
                (e ∙ rw (same_user, same_library) refl) in
            elim how [
              | inl token ↦ (private, token, role)
              | inr (g, _, (value, c, _, _, _, _, _, who, _)) ↦ cc (rw who at role)
            ]
      ]
