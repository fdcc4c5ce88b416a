-- ===== src/Importing/Accepting.antt =====
-- When an import is accepted without asking.
use mathlib.Core.List.{append-nil}
use alexandryn.Base.{
  suc, ◌≡◌, refl, ap, ◌∙◌, ◌↔◌, ◌⊎◌, inl, inr, Bool, true, false, Option, List, [], ◌∷◌, ◌++◌, map,
  arith, ==_iff, length, filter, filter-append, Text,
}
use alexandryn.Importing.{
  Confidence, exact, high, medium, low, Candidate, EditionHit, SearchResult, Metadata,
  score_open_library_result, of_hit, of_item, existing_hits, found_items, match_file,
}

abbrev pub is_exact : Candidate → Bool
is_exact c = elim c.confidence [ exact ↦ true | _ ↦ false ]

abbrev exactly : Confidence → Bool
exactly exact = true
exactly other = false

module _ (to_lower : Text → Text) where
  -- No search result is exact: a title that differs is never high either.
  score_inexact :
      (meta : Metadata) (item : SearchResult)
      → exactly (score_open_library_result to_lower meta item) ≡ false
  unfolding score_open_library_result
  score_inexact meta item = ground arith

  hits_exact :
      (hits : List EditionHit)
      → filter is_exact (map (of_hit to_lower) hits) ≡ map (of_hit to_lower) hits
  unfolding filter
  hits_exact [] = refl
  hits_exact (h ∷ hits) = ap (λ x. of_hit to_lower h ∷ x) (hits_exact hits)

  length-map : (hits : List EditionHit) → length (map (of_hit to_lower) hits) ≡ length hits
  length-map [] = refl
  length-map (h ∷ hits) = ap suc (length-map hits)

  items_inexact :
      (meta : Metadata) (items : List SearchResult)
      → filter is_exact (map (of_item to_lower meta) items) ≡ []
  unfolding filter
  items_inexact meta [] = refl
  items_inexact meta (i ∷ items) =
      elim (score_cases (score_open_library_result to_lower meta i) (score_inexact meta i)) [
        | inl e ↦ rw e (items_inexact meta items)
        | inr (inl e) ↦ rw e (items_inexact meta items)
        | inr (inr e) ↦ rw e (items_inexact meta items)
      ]
    where
      score_cases : (c : Confidence) → exactly c ≡ false → (c ≡ high) ⊎ ((c ≡ medium) ⊎ (c ≡ low))
      score_cases exact e = cc e
      score_cases high e = inl refl
      score_cases medium e = inr (inl refl)
      score_cases low e = inr (inr refl)

  -- An import is accepted without asking exactly when one of the candidates is of exact confidence and
  -- no other is; the exact candidates are the editions of the library that the file's ISBN found, and
  -- no result of the search is among them, whatever it scores.
  pub match_file-accepts :
      (find_owned : Text → Option (List EditionHit)) (search : Text → Option (List SearchResult))
      (meta : Metadata)
      → let (candidates, accept) = match_file to_lower find_owned search meta in
        (filter is_exact candidates
          ≡ map (of_hit to_lower) (existing_hits to_lower find_owned meta.isbn))
        × ((accept ≡ true) ↔ (length (filter is_exact candidates) ≡ 1))
  unfolding match_file
  match_file-accepts find_owned search meta =
      let hits = existing_hits to_lower find_owned meta.isbn in
      let items = found_items to_lower search meta in
      let all_exact : filter is_exact
            (map (of_hit to_lower) hits ++ map (of_item to_lower meta) items)
          ≡ map (of_hit to_lower) hits =
        filter-append is_exact (map (of_hit to_lower) hits) (map (of_item to_lower meta) items)
        ∙ rw (hits_exact hits, items_inexact meta items)
            (append-nil (map (of_hit to_lower) hits)) in
      (all_exact, rw (all_exact, length-map hits) (==_iff (length hits) 1))
