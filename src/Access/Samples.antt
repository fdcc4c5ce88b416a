-- ===== src/Access/Samples.antt =====
-- A member's request for a library, with the token of the login.
use alexandryn.Base.{
  ◌≡◌, refl, ◌⊎◌, true, false, Option, none, some, [], ◌∷◌, ◌++◌, any, lit, text_eq,
}
use alexandryn.Signing.{
  verify_access_token, verify, sign, hs256_sign, hs256_verified_claims, verified_parts, split_dots,
}
use alexandryn.Signing.Grants.{GrantSigner}
use alexandryn.Signing.Samples.{plain, server, reader_login}
use alexandryn.Access.{
  Request, AuthenticatedUser, admitted, claims_user, auth_middleware, is_public_path, require_role,
  by_token, with_library,
}
use alexandryn.Access.Admission.{
  ByToken, ByGrant, auth_middleware-admitted, require_role-auth_middleware,
}

abbrev to_library : Request
to_library = record {
  path = lit "/api/v1/library";
  method = lit "GET";
  authorization = lit "Bearer " ++ sign plain server reader_login;
  library_header = [];
  cookie = none;
}

abbrev ada : AuthenticatedUser
ada = claims_user plain reader_login

to_library-admitted : auth_middleware plain server none to_library 500 ≡ admitted ada (lit "l1")
unfolding auth_middleware sign hs256_sign hs256_verified_claims verified_parts split_dots verify
    verify_access_token is_public_path by_token with_library text_eq any
to_library-admitted = refl

auth_middleware-admitted_example :
    (is_public_path (lit "/api/v1/library") ≡ false)
    × (ByToken plain server to_library 500 ada (lit "l1")
        ⊎ ((g : GrantSigner) × (◌≡◌ {A = Option GrantSigner} none (some g))
            × ByGrant plain server g to_library 500 ada (lit "l1")))
auth_middleware-admitted_example =
    auth_middleware-admitted plain server none to_library 500 ada (lit "l1") to_library-admitted

require_role-auth_middleware_example :
    (is_public_path (lit "/api/v1/library") ≡ false)
    × ByToken plain server to_library 500 ada (lit "l1")
    × (any (λ allowed. text_eq (lit "member") allowed) (lit "admin" ∷ lit "member" ∷ []) ≡ true)
require_role-auth_middleware_example =
    require_role-auth_middleware plain server none (lit "admin" ∷ lit "member" ∷ []) to_library 500
      ada (lit "l1") (unfold any in unfold text_eq in refl)
      (unfold require_role in rw to_library-admitted (unfold any in unfold text_eq in refl))
