-- ===== src/Sources/Cursors.antt =====
-- internal/adapters/sources/cursor.go: continuation tokens, signed with a key. A byte string is a list
-- of numbers.
use alexandryn.Base.{
  ℕ, zero, suc, ◌+◌, ◌≤◌, ◌≡◌, refl, sym, ap, ◌∙◌, subst, ◌⊎◌, inl, inr, Bool, true, false, not,
  ◌||◌, Option, none, some, [], ◌∷◌, ◌++◌, arith, ltb, if◌then◌else◌, Bool-cases, Option-cases,
  length, take, drop, length-append, take-append-drop, Text, lit, text_eq, text_eq_iff,
  text_eq_refl, is_empty, invalid_input, Error, error, Result, ok, err,
}
use alexandryn.Sources.{
  Url, OriginParts, same_origin, same_origin_iff, parse_absolute_http, effective,
}

pub record Cursor : Type 0 where
  pub source_id : Text
  pub kind : Text
  pub position : Text

abbrev pub kind_local_folder : Text
kind_local_folder = lit "local-folder"

abbrev pub kind_opds : Text
kind_opds = lit "opds"

-- The packages that the codec calls.
pub record Primitives : Type 0 where
  pub hmac_sha256 : Text → Text → Text
  pub encode64 : Text → Text
  pub decode64 : Text → Option Text
  pub marshal : Cursor → Text
  pub unmarshal : Text → Option Cursor

-- What the codec relies on: a MAC has 32 bytes, decoding base64 undoes encoding, and the JSON of a
-- cursor is not empty.
pub record IsStandard (p : Primitives) : Type 0 where
  pub hmac_length : (key message : Text) → length (p.hmac_sha256 key message) ≡ 32
  pub decode64-encode64 : (s : Text) → p.decode64 (p.encode64 s) ≡ some s
  pub marshal_some : (c : Cursor) → 1 ≤ length (p.marshal c)

abbrev mac_length : ℕ
mac_length = 32

module _ (p : Primitives) where
  unfoldable pub encode : Text → Cursor → Text
  encode key c = p.encode64 (p.hmac_sha256 key (p.marshal c) ++ p.marshal c)

  abbrev known_kind : Text → Bool
  known_kind kind = text_eq kind kind_local_folder || text_eq kind kind_opds

  unfoldable pub decode : Text → Text → Text → Result Cursor
  decode key token want_source_id = elim (p.decode64 token) [
    | none ↦ err (error invalid_input)
    | some raw ↦
        if ltb (length raw) (mac_length + 1)
        then err (error invalid_input)
        else if not (text_eq (take mac_length raw) (p.hmac_sha256 key (drop mac_length raw)))
        then err (error invalid_input)
        else elim (p.unmarshal (drop mac_length raw)) [
          | none ↦ err (error invalid_input)
          | some c ↦
              if not (text_eq c.source_id want_source_id)
              then err (error invalid_input)
              else if not (known_kind c.kind)
              then err (error invalid_input)
              else ok c
        ]
  ]

-- The answer of ForOPDSPosition: the position to fetch, or which of the two refusals.
pub data Position : Type 0 where
  wrong_kind off_origin : Position
  position : Text → Position

unfoldable pub for_opds_position : (Text → Option Url) → (Text → Text) → Cursor → Text → Position
for_opds_position parse fold c base_url =
    if not (text_eq c.kind kind_opds)
    then wrong_kind
    else if is_empty c.position
    then position []
    else if not (same_origin parse fold base_url c.position)
    then off_origin
    else position c.position

take-append : (n : ℕ) (a b : Text) → length a ≡ n → take n (a ++ b) ≡ a
take-append zero [] b h = refl
take-append zero (x ∷ a) b h = absurd (omega arith)
take-append (suc n) [] b h = absurd (omega arith)
take-append (suc n) (x ∷ a) b h = rw (take-append n a b (omega arith)) refl

drop-append : (n : ℕ) (a b : Text) → length a ≡ n → drop n (a ++ b) ≡ b
drop-append zero [] b h = refl
drop-append zero (x ∷ a) b h = absurd (omega arith)
drop-append (suc n) [] b h = absurd (omega arith)
drop-append (suc n) (x ∷ a) b h = drop-append n a b (omega arith)

if_ok {ℓ} :
    {A : Type ℓ} (b : Bool) (o : Result A) (e : Error) {x : A}
    → (if b then err e else o) ≡ ok x
    → (b ≡ false) × (o ≡ ok x)
if_ok true o e h = cc h
if_ok false o e h = (refl, h)

module _ (p : Primitives) where
  -- Every cursor of a known kind that is read back from its own JSON is decoded from its own token for
  -- its own source, and for any other source its token is invalid input. A MAC is taken to have 32
  -- bytes, base64 to decode what it encoded, and the JSON of a cursor not to be empty.
  pub decode-encode :
      (key : Text) (c : Cursor) (want : Text)
      → IsStandard p
      → p.unmarshal (p.marshal c) ≡ some c
      → (c.kind ≡ kind_local_folder) ⊎ (c.kind ≡ kind_opds)
      → decode p key (encode p key c) want
        ≡ (if text_eq c.source_id want then ok c else err (error invalid_input))
  unfolding decode encode
  decode-encode key c want std read_back known =
      let mac = p.hmac_sha256 key (p.marshal c) in
      let raw = mac ++ p.marshal c in
      let opened = std.decode64-encode64 raw in
      let long : ltb (length raw) 33 ≡ false = ground (
        arith,
        length-append mac (p.marshal c),
        std.hmac_length key (p.marshal c),
        std.marshal_some c,
      ) in
      let first = take-append 32 mac (p.marshal c) (std.hmac_length key (p.marshal c)) in
      let rest = drop-append 32 mac (p.marshal c) (std.hmac_length key (p.marshal c)) in
      rw (decode, opened, long, first, rest, text_eq_refl mac, read_back)
        (own (text_eq c.source_id want))
    where
      named : (k : Text) → (k ≡ kind_local_folder) ⊎ (k ≡ kind_opds) → known_kind p k ≡ true
      named k (inl e) = unfold text_eq in rw e refl
      named k (inr e) = unfold text_eq in rw e refl

      own :
          (same : Bool)
          → (if not same
              then err (error invalid_input)
              else if not (known_kind p c.kind)
              then err (error invalid_input)
              else ok c)
            ≡ (if same then ok c else err (error invalid_input))
      own true = rw (named c.kind known) refl
      own false = refl

  -- A token that is accepted for a source decodes to the MAC of its payload under the key, followed by
  -- the payload, which holds the cursor returned; the cursor is of that source and of a known kind.
  pub decode-accepted :
      (key token want : Text) (c : Cursor)
      → decode p key token want ≡ ok c
      → (payload : Text) × (p.decode64 token ≡ some (p.hmac_sha256 key payload ++ payload))
        × (p.unmarshal payload ≡ some c)
        × (c.source_id ≡ want)
        × ((c.kind ≡ kind_local_folder) ⊎ (c.kind ≡ kind_opds))
  unfolding decode
  decode-accepted key token want c h = elim (Option-cases (p.decode64 token)) [
    | inl e ↦ cc (rw (e, decode) at h)
    | inr (raw, e) ↦
        let (_, g) = if_ok (ltb (length raw) 33) _ (error invalid_input) (rw (e, decode) at h) in
        let (same, k) =
          if_ok (not (text_eq (take 32 raw) (p.hmac_sha256 key (drop 32 raw)))) _
            (error invalid_input) g in
        let mac = (text_eq_iff (take 32 raw) (p.hmac_sha256 key (drop 32 raw))).0 (ground arith) in
        elim (Option-cases (p.unmarshal (drop 32 raw))) [
          | inl f ↦ cc (rw f at k)
          | inr (d, f) ↦
              let (own, l) =
                if_ok (not (text_eq d.source_id want)) _ (error invalid_input) (rw f at k) in
              let (known, m) = if_ok (not (known_kind p d.kind)) (ok d) (error invalid_input) l in
              let there : d ≡ c = ground arith in
              (
                drop 32 raw,
                e ∙ ap some (sym (take-append-drop 32 raw) ∙ ap (λ x. x ++ drop 32 raw) mac),
                f ∙ ap some there,
                ap (λ (x : Cursor). x.source_id) (sym there)
                    ∙ (text_eq_iff d.source_id want).0 (ground arith),
                subst (λ (x : Cursor). (x.kind ≡ kind_local_folder) ⊎ (x.kind ≡ kind_opds)) there
                    (kinds d.kind known),
              )
        ]
  ]
    where
      kinds : (k : Text) → not (known_kind p k) ≡ false → (k ≡ kind_local_folder) ⊎ (k ≡ kind_opds)
      kinds k n = elim (Bool-cases (text_eq k kind_local_folder)) [
        | inl y ↦ inl ((text_eq_iff k kind_local_folder).0 y)
        | inr z ↦ inr ((text_eq_iff k kind_opds).0 (ground arith))
      ]

-- A position that is given out to be fetched is empty or on the origin of the source: both addresses
-- are absolute HTTP or HTTPS ones, of one effective origin. Nothing is given out for another kind.
pub for_opds_position-same_origin :
    (parse : Text → Option Url) (fold : Text → Text) (c : Cursor) (base_url given : Text)
    → for_opds_position parse fold c base_url ≡ position given
    → (c.kind ≡ kind_opds)
      × (given ≡ c.position)
      × ((given ≡ [])
          ⊎ ((a b : OriginParts) × (parse_absolute_http parse fold base_url ≡ some a)
              × (parse_absolute_http parse fold given ≡ some b)
              × (effective parse fold a ≡ effective parse fold b)))
unfolding for_opds_position
for_opds_position-same_origin parse fold c base_url given h =
    elim (Bool-cases (text_eq c.kind kind_opds)) [
      | inr n ↦ cc (rw (n, for_opds_position) at h)
      | inl y ↦
          let opds = (text_eq_iff c.kind kind_opds).0 y in
          elim (Bool-cases (is_empty c.position)) [
            | inl blank ↦
                let g : ◌≡◌ {A = Position} (position []) (position given) =
                  rw (y, blank, for_opds_position) at h in
                let none_given : given ≡ [] = ground arith in
                (opds, none_given ∙ sym (empty_text c.position blank), inl none_given)
            | inr full ↦ elim (Bool-cases (same_origin parse fold base_url c.position)) [
              | inr off ↦ cc (rw (y, full, off, for_opds_position) at h)
              | inl on ↦
                  let g : ◌≡◌ {A = Position} (position c.position) (position given) =
                    rw (y, full, on, for_opds_position) at h in
                  let whole : c.position ≡ given = ground arith in
                  (
                    opds,
                    sym whole,
                    inr (
                        (same_origin_iff parse fold base_url given).0 (
                          subst (λ (x : Text). same_origin parse fold base_url x ≡ true) whole on)),
                  )
            ]
          ]
    ]
  where
    empty_text : (s : Text) → is_empty s ≡ true → s ≡ []
    empty_text [] e = refl
    empty_text (x ∷ s) e = cc e
