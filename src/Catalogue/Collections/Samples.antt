-- ===== src/Catalogue/Collections/Samples.antt =====
-- A collection and calls on it.
use alexandryn.Base.{◌≡◌, refl, [], ◌∷◌, any, lit, text_eq}
use alexandryn.Catalogue.Collections.{Collection, add_member, remove_member}
use alexandryn.Catalogue.Collections.Members.{
  adding, removing, run, holds, last_call, run-holds, remove_member-add_member,
}

abbrev classics : Collection
classics = record {
  id = lit "c1";
  name = lit "Classics";
  members = record { work_id = lit "emma"; added_at = 5 } ∷ [];
}

run-holds_test :
    let calls = removing (lit "emma") ∷ adding (lit "persuasion") 6 ∷ adding (lit "emma") 7 ∷ [] in
    holds (run classics calls) (lit "emma")
    ≡ last_call (holds classics (lit "emma")) calls (lit "emma")
run-holds_test =
    run-holds classics
      (removing (lit "emma") ∷ adding (lit "persuasion") 6 ∷ adding (lit "emma") 7 ∷ [])
      (lit "emma")

remove_member-add_member_run :
    (remove_member (add_member classics (lit "persuasion") 6) (lit "persuasion") ≡ classics)
    × (add_member (add_member classics (lit "persuasion") 6) (lit "persuasion") 9
        ≡ add_member classics (lit "persuasion") 6)
remove_member-add_member_run =
    remove_member-add_member classics (lit "persuasion") 6 9 (unfold holds any text_eq in refl)
