-- ===== src/Catalogue/Pages.antt =====
-- internal/domain/library_query.go: the cursors of a library page. base64url and the RFC 3339 text of a
-- time are parameters; a byte string is a list of numbers, and the fields are joined by a NUL.
mod Samples
use alexandryn.Base.{
  ℕ, ◌+◌, ◌-◌, ◌≡◌, refl, true, false, not, ◌&&◌, ◌||◌, Option, none, some, List, [], ◌∷◌, ◌++◌,
  arith, ◌==◌, if◌then◌else◌, &&-true, all, Text, is_empty, invalid_input, error, Result, ok, err,
}

-- The packages that the cursors call; `T` is time.Time.
pub record Primitives (T : Type 0) : Type 0 where
  pub encode64 : Text → Text
  pub decode64 : Text → Option Text
  pub format : T → Text
  pub parse : Text → Option T

-- Decoding undoes encoding; the text of a time is not empty, holds no NUL and is read as the time, and
-- only the empty text is encoded as the empty one.
pub record IsStandard (T : Type 0) (p : Primitives T) : Type 0 where
  pub decode64-encode64 : (s : Text) → p.decode64 (p.encode64 s) ≡ some s
  pub encode64_some : (c : ℕ) (s : Text) → is_empty (p.encode64 (c ∷ s)) ≡ false
  pub format_some : (t : T) → is_empty (p.format t) ≡ false
  pub format_plain : (t : T) → all (λ c. not (c == 0)) (p.format t) ≡ true
  pub parse-format : (t : T) → p.parse (p.format t) ≡ some t

abbrev prepend : ℕ → List Text → List Text
prepend c [] = []
prepend c (part ∷ parts) = (c ∷ part) ∷ parts

-- strings.Split(s, "\x00")
split_nul : Text → List Text
split_nul [] = [] ∷ []
split_nul (c ∷ s) = let rest = split_nul s in if c == 0 then [] ∷ rest else prepend c rest

module _ {T : Type 0} (p : Primitives T) where
  unfoldable pub encode_added_at_cursor : T → Text → Text
  encode_added_at_cursor added_at id = p.encode64 (p.format added_at ++ (0 ∷ id))

  added_at_parts : List Text → Result (T × Text)
  added_at_parts (time ∷ id ∷ []) =
      if is_empty time || is_empty id
      then err (error invalid_input)
      else elim (p.parse time) [ none ↦ err (error invalid_input) | some t ↦ ok (t, id) ]
  added_at_parts parts = err (error invalid_input)

  unfoldable pub decode_added_at_cursor : Text → Result (T × Text)
  unfolding added_at_parts split_nul
  decode_added_at_cursor cursor =
      if is_empty cursor then err (error invalid_input) else elim (p.decode64 cursor) [
        | none ↦ err (error invalid_input)
        | some b ↦ added_at_parts (split_nul b)
      ]

  unfoldable pub encode_title_cursor : Text → Text → Text
  encode_title_cursor title id = p.encode64 (title ++ (0 ∷ id))

  title_parts : List Text → Result (Text × Text)
  title_parts (title ∷ id ∷ []) = if is_empty id then err (error invalid_input) else ok (title, id)
  title_parts parts = err (error invalid_input)

  unfoldable pub decode_title_cursor : Text → Result (Text × Text)
  unfolding title_parts split_nul
  decode_title_cursor cursor =
      if is_empty cursor then err (error invalid_input) else elim (p.decode64 cursor) [
        | none ↦ err (error invalid_input)
        | some b ↦ title_parts (split_nul b)
      ]

split_plain : (a : Text) → all (λ c. not (c == 0)) a ≡ true → split_nul a ≡ a ∷ []
unfolding split_nul all
split_plain [] h = refl
split_plain (c ∷ a) h =
    let (plain, rest) = &&-true (not (c == 0)) (all (λ x. not (x == 0)) a) h in
    rw (split_plain a rest) (ground arith)

split_joined :
    (a b : Text) → all (λ c. not (c == 0)) a ≡ true → split_nul (a ++ (0 ∷ b)) ≡ a ∷ split_nul b
unfolding split_nul all
split_joined [] b h = refl
split_joined (c ∷ a) b h =
    let (plain, rest) = &&-true (not (c == 0)) (all (λ x. not (x == 0)) a) h in
    rw (split_joined a b rest) (ground arith)

module _ {T : Type 0} (p : Primitives T) where
  -- Both cursors are read back as they were written, for an id that is not empty, and an id and a title
  -- without a NUL.
  pub decode_cursor-encode_cursor :
      (t : T) (title id : Text)
      → IsStandard T p
      → is_empty id ≡ false
      → all (λ c. not (c == 0)) id ≡ true
      → all (λ c. not (c == 0)) title ≡ true
      → (decode_added_at_cursor p (encode_added_at_cursor p t id) ≡ ok (t, id))
        × (decode_title_cursor p (encode_title_cursor p title id) ≡ ok (title, id))
  unfolding decode_added_at_cursor encode_added_at_cursor decode_title_cursor encode_title_cursor
      added_at_parts title_parts
  decode_cursor-encode_cursor t title id std given plain plain_title =
      let added = p.format t ++ (0 ∷ id) in
      let titled = title ++ (0 ∷ id) in
      (
        rw
            (
              decode_added_at_cursor,
              filled (p.format t) id,
              std.decode64-encode64 added,
              split_joined (p.format t) id (std.format_plain t),
              split_plain id plain,
              added_at_parts,
              std.format_some t,
              given,
              std.parse-format t,
            )
            refl,
        rw
            (
              decode_title_cursor,
              filled title id,
              std.decode64-encode64 titled,
              split_joined title id plain_title,
              split_plain id plain,
              title_parts,
              given,
            )
            refl,
      )
    where
      filled : (s rest : Text) → is_empty (p.encode64 (s ++ (0 ∷ rest))) ≡ false
      filled [] rest = std.encode64_some 0 rest
      filled (c ∷ s) rest = std.encode64_some c (s ++ (0 ∷ rest))
