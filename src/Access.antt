-- ===== src/Access.antt =====
-- internal/transport/http/auth_middleware.go: which requests reach a handler, and as whom. The tokens
-- are those of the signing modules; a request is what the middleware reads of it. Times are Unix seconds
-- after 1970; the cookie is the value that r.Cookie finds.
pub mod Admission
mod Samples
use alexandryn.Base.{
  ℕ, ◌+◌, ◌-◌, ◌/◌, Bool, true, false, not, ◌&&◌, ◌||◌, Option, none, some, List, [], ◌∷◌, ◌++◌,
  ◌==◌, if◌then◌else◌, any, pos, Text, lit, text_eq, is_empty,
}
use alexandryn.Signing.{ReaderContentClaims, Claims, Primitives, JwtSigner, verify_access_token}
use alexandryn.Signing.Grants.{GrantSigner, verify_reader}

pub record Request : Type 0 where
  pub path : Text
  pub method : Text
  pub authorization : Text
  pub library_header : Text
  pub cookie : Option Text

pub record AuthenticatedUser : Type 0 where
  pub user_id : Text
  pub username : Text
  pub role : Text
  pub libraries : List Text

-- The answer of the middleware: the handler is called without a user on a public path, or with a user
-- and an active library in the context; or the request is answered 401 or 403.
pub data Passage : Type 0 where
  anonymous : Passage
  admitted : AuthenticatedUser → Text → Passage
  unauthorized_answer forbidden_answer : Passage

-- strings.HasPrefix and strings.TrimPrefix or strings.CutPrefix at once: what follows the prefix.
abbrev pub cut_prefix : Text → Text → Option Text
cut_prefix s [] = some s
cut_prefix [] (x ∷ prefix) = none
cut_prefix (c ∷ s) (x ∷ prefix) = if c == x then cut_prefix s prefix else none

abbrev is_some {ℓ} : {A : Type ℓ} → Option A → Bool
is_some none = false
is_some (some x) = true

-- strings.Cut(s, "/")
abbrev cut_slash : Text → Text → Option (Text × Text)
cut_slash before [] = none
cut_slash before (c ∷ s) = if c == 47 then some (before, s) else cut_slash (before ++ (c ∷ [])) s

abbrev public_auth_paths : List Text
public_auth_paths =
    lit "/api/v1/auth/setup/status"
    ∷ lit "/api/v1/auth/setup"
    ∷ lit "/api/v1/auth/login"
    ∷ lit "/api/v1/auth/refresh"
    ∷ lit "/api/v1/auth/logout"
    ∷ lit "/api/v1/auth/password-reset/request"
    ∷ lit "/api/v1/auth/password-reset/confirm"
    ∷ lit "/api/v1/auth/mfa/totp/verify"
    ∷ lit "/api/v1/network/pair/verify"
    ∷ []

unfoldable pub is_public_path : Text → Bool
is_public_path path =
    if text_eq path (lit "/healthz") || text_eq path (lit "/readyz")
    then true
    else if any (λ p. text_eq path p) public_auth_paths
    then true
    else not (is_some (cut_prefix path (lit "/api/v1/")))

unfoldable pub library_in_claims : Text → List Text → Bool
library_in_claims library claimed = any (λ c. text_eq c library) claimed

abbrev reader_editions_prefix : Text
reader_editions_prefix = lit "/api/v1/library/editions/"

unfoldable pub reader_content_edition_from_path : Text → Option Text
reader_content_edition_from_path path = elim (cut_prefix path reader_editions_prefix) [
  | none ↦ none
  | some rest ↦ elim (cut_slash [] rest) [
    | none ↦ none
    | some (id, tail) ↦
        if is_empty id || not (is_some (cut_prefix tail (lit "reader/content/")))
        then none
        else some id
  ]
]

module _ (p : Primitives) where
  -- readerContentGrantContext: the claims of a grant for the edition of the path.
  unfoldable pub reader_content_grant : GrantSigner → Request → ℕ → Option ReaderContentClaims
  unfolding reader_content_edition_from_path
  reader_content_grant grants r now =
      if not (text_eq r.method (lit "GET")) && not (text_eq r.method (lit "HEAD"))
      then none
      else elim (reader_content_edition_from_path r.path) [
        | none ↦ none
        | some edition_id ↦ elim r.cookie [
          | none ↦ none
          | some value ↦ if is_empty value then none else elim (verify_reader p grants value now) [
            | none ↦ none
            | some c ↦ if not (text_eq c.edition_id edition_id) then none else some c
          ]
        ]
      ]

  abbrev pub grant_user : ReaderContentClaims → AuthenticatedUser
  grant_user c = record {
    user_id = c.subject;
    username = [];
    role = [];
    libraries = c.library_id ∷ [];
  }

  abbrev pub claims_user : Claims → AuthenticatedUser
  claims_user c = record {
    user_id = c.subject;
    username = c.username;
    role = c.role;
    libraries = c.libraries;
  }

  -- The active library of an access token.
  unfoldable pub with_library : Request → Claims → Passage
  unfolding library_in_claims
  with_library r c =
      if is_empty r.library_header
      then elim c.libraries [
        | first ∷ rest ↦ admitted (claims_user c) first
        | [] ↦
            if text_eq r.path (lit "/api/v1/libraries") && text_eq r.method (lit "GET")
            then admitted (claims_user c) []
            else forbidden_answer
      ]
      else if not (library_in_claims r.library_header c.libraries)
      then forbidden_answer
      else admitted (claims_user c) r.library_header

  unfoldable pub by_token : JwtSigner → Request → ℕ → Passage
  unfolding with_library
  by_token signer r now = elim (cut_prefix r.authorization (lit "Bearer ")) [
    | none ↦ unauthorized_answer
    | some token ↦ elim (verify_access_token p signer token (pos now)) [
      | none ↦ unauthorized_answer
      | some c ↦ with_library r c
    ]
  ]

  -- AuthMiddlewareWithReaderGrants, and AuthMiddleware when there are no grants.
  unfoldable pub auth_middleware : JwtSigner → Option GrantSigner → Request → ℕ → Passage
  unfolding is_public_path reader_content_grant by_token
  auth_middleware signer grants r now =
      if is_public_path r.path
      then anonymous
      else if is_empty r.authorization
      then elim grants [
        | none ↦ by_token signer r now
        | some g ↦ elim (reader_content_grant g r now) [
          | none ↦ by_token signer r now
          | some c ↦ admitted (grant_user c) c.library_id
        ]
      ]
      else by_token signer r now

-- ActiveLibraryFromContext; the default library stands for an empty one.
abbrev active_library : Text → Text → Text
active_library default_library library = if is_empty library then default_library else library

-- RequireRole on what the middleware let through: the answer, or that the handler is called.
pub data Answer : Type 0 where
  handled : AuthenticatedUser → Text → Answer
  unauthorized_ forbidden_ : Answer

unfoldable pub require_role : List Text → Passage → Answer
require_role roles (admitted user library) =
    if any (λ allowed. text_eq user.role allowed) roles then handled user library else forbidden_
require_role roles anonymous = unauthorized_
require_role roles unauthorized_answer = unauthorized_
require_role roles forbidden_answer = forbidden_

-- RequireIngestPermission; `uploads` is AllowReaderUploads of the library that FindByID finds.
require_ingest_permission : Text → (Text → Option Bool) → Passage → Answer
require_ingest_permission default_library uploads (admitted user library) =
    if text_eq user.role (lit "admin")
    then handled user library
    else elim (uploads (active_library default_library library)) [
      | none ↦ forbidden_
      | some allowed ↦ if allowed then handled user library else forbidden_
    ]
require_ingest_permission default_library uploads anonymous = unauthorized_
require_ingest_permission default_library uploads unauthorized_answer = unauthorized_
require_ingest_permission default_library uploads forbidden_answer = forbidden_
