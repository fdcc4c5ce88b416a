-- ===== src/Importing.antt =====
-- internal/importer/matching.go: the candidates for an imported file, and when one is accepted without
-- asking. The library lookup and the Open Library search are parameters, `none` for an error or for a
-- dependency that is not there; strings.ToLower is one too.
pub mod Accepting
mod Samples
use alexandryn.Base.{
  ℕ, ◌+◌, Bool, true, false, not, ◌&&◌, ◌||◌, Option, none, some, List, [], ◌∷◌, ◌++◌, map, ◌==◌,
  if◌then◌else◌, length, any, Text, lit, text_eq, trim_space, is_empty,
}

pub data Confidence : Type 0 where
  exact high medium low : Confidence

pub data Kind : Type 0 where
  existing_edition open_library_work : Kind

pub record Candidate : Type 0 where
  pub kind : Kind
  pub confidence : Confidence
  pub title : Text
  pub author : Option Text
  pub cover_url : Option Text
  pub edition_id : Option Text
  pub work_key : Option Text

-- postgres.ExistingEditionHit
pub record EditionHit : Type 0 where
  pub edition_id : Text
  pub title : Text
  pub author : Text
  pub cover_url : Option Text

-- openlibrary.NormalisedSearchResult; of an author, the name.
pub record SearchResult : Type 0 where
  pub work_key : Text
  pub title : Text
  pub authors : List Text
  pub cover_url : Option Text

-- The parts of extract.ExtractedMetadata that are matched on.
pub record Metadata : Type 0 where
  pub title : Text
  pub isbn : Option Text
  pub authors : List Text

-- `\s` of the regular expression.
abbrev is_regex_space : ℕ → Bool
is_regex_space c = c == 9 || (c == 10 || (c == 12 || (c == 13 || c == 32)))

-- Runs of white space become one space each; `inside` says that the run has been written.
collapse : Bool → Text → Text
collapse inside [] = []
collapse inside (c ∷ s) =
    let skipped = collapse true s in
    let next = collapse false s in
    if is_regex_space c then (if inside then skipped else 32 ∷ skipped) else c ∷ next

-- strings.HasPrefix and strings.Contains
abbrev has_prefix : Text → Text → Bool
has_prefix s [] = true
has_prefix [] (x ∷ part) = false
has_prefix (c ∷ s) (x ∷ part) = c == x && has_prefix s part

abbrev contains : Text → Text → Bool
contains [] part = is_empty part
contains (c ∷ s) part = has_prefix (c ∷ s) part || contains s part

-- `strings.Split(s, "(")[0]`
abbrev before_paren : Text → Text
before_paren [] = []
before_paren (c ∷ s) = let rest = before_paren s in if c == 40 then [] else c ∷ rest

abbrev same : Bool → Bool → Bool
same true b = b
same false b = not b

module _ (to_lower : Text → Text) where
  normalize_text : Text → Text
  unfolding collapse
  normalize_text s = trim_space (collapse false (to_lower s))

  name_matches : Text → Text → Bool
  unfolding normalize_text
  name_matches meta_author item_author =
      let m = normalize_text meta_author in
      let i = normalize_text item_author in
      not (is_empty m) && (text_eq m i || (contains i m || contains m i))

  unfoldable pub score_open_library_result : Metadata → SearchResult → Confidence
  unfolding normalize_text name_matches
  score_open_library_result meta item =
      let paren_diff = not (same (contains meta.title (lit "(")) (contains item.title (lit "("))) in
      let author_matches = any (λ m. any (λ i. name_matches m i) item.authors) meta.authors in
      let base_meta = normalize_text (before_paren meta.title) in
      let base_item = normalize_text (before_paren item.title) in
      if text_eq (normalize_text meta.title) (normalize_text item.title)
      then (if author_matches then (if paren_diff then medium else high) else medium)
      else if not (is_empty base_meta) && text_eq base_meta base_item
      then medium
      else low

  abbrev pub of_hit : EditionHit → Candidate
  of_hit hit = record {
    kind = existing_edition;
    confidence = exact;
    title = hit.title;
    author = if is_empty hit.author then none else some hit.author;
    cover_url = hit.cover_url;
    edition_id = some hit.edition_id;
    work_key = none;
  }

  abbrev first : List Text → Option Text
  first [] = none
  first (x ∷ xs) = some x

  abbrev pub of_item : Metadata → SearchResult → Candidate
  of_item meta item = record {
    kind = open_library_work;
    confidence = score_open_library_result meta item;
    title = item.title;
    author = first item.authors;
    cover_url = item.cover_url;
    edition_id = none;
    work_key = some item.work_key;
  }

  abbrev or_none {ℓ} : {A : Type ℓ} → Option (List A) → List A
  or_none none = []
  or_none (some xs) = xs

  -- The lookup is made only for an ISBN that is there and not empty.
  unfoldable pub existing_hits : (Text → Option (List EditionHit)) → Option Text → List EditionHit
  existing_hits find_owned_by_isbn none = []
  existing_hits find_owned_by_isbn (some isbn) =
      if is_empty isbn then [] else or_none (find_owned_by_isbn isbn)

  abbrev query_of : Metadata → Text
  query_of meta = elim (first meta.authors) [
    | none ↦ meta.title
    | some author ↦ meta.title ++ (32 ∷ author)
  ]

  unfoldable pub found_items : (Text → Option (List SearchResult)) → Metadata → List SearchResult
  found_items search meta = if is_empty meta.title then [] else or_none (search (query_of meta))

  -- Match: the candidates, and whether to accept.
  unfoldable pub match_file :
      (Text → Option (List EditionHit))
      → (Text → Option (List SearchResult))
      → Metadata
      → List Candidate × Bool
  unfolding existing_hits found_items
  match_file find_owned_by_isbn search meta =
      let hits = existing_hits find_owned_by_isbn meta.isbn in
      (map of_hit hits ++ map (of_item meta) (found_items search meta), length hits == 1)
