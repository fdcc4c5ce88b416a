-- ===== src/Importing/Samples.antt =====
-- A file whose ISBN the library knows, and a search that knows another title.
use alexandryn.Base.{
  ◌≡◌, ◌↔◌, true, Option, none, some, List, [], ◌∷◌, map, if◌then◌else◌, length, filter, Text, lit,
  text_eq,
}
use alexandryn.Importing.{EditionHit, SearchResult, Metadata, of_hit, existing_hits, match_file}
use alexandryn.Importing.Accepting.{is_exact, match_file-accepts}

abbrev as_is : Text → Text
as_is s = s

abbrev owned : Text → Option (List EditionHit)
owned isbn =
    if text_eq isbn (lit "9780141439518")
    then some (
        record {
          edition_id = lit "e1";
          title = lit "Emma";
          author = lit "Jane Austen";
          cover_url = none;
        }
        ∷ [])
    else none

abbrev found : Text → Option (List SearchResult)
found query = some (
    record {
      work_key = lit "OL1W";
      title = lit "Emma";
      authors = lit "Jane Austen" ∷ [];
      cover_url = none;
    }
    ∷ [])

abbrev emma : Metadata
emma = record {
  title = lit "Emma";
  isbn = some (lit "9780141439518");
  authors = lit "Jane Austen" ∷ [];
}

match_file-accepts_example :
    let (candidates, accept) = match_file as_is owned found emma in
    (filter is_exact candidates ≡ map (of_hit as_is) (existing_hits as_is owned emma.isbn))
    × ((accept ≡ true) ↔ (length (filter is_exact candidates) ≡ 1))
match_file-accepts_example = match_file-accepts as_is owned found emma
