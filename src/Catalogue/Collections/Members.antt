-- ===== src/Catalogue/Collections/Members.antt =====
-- Which works a collection holds after additions and removals.
use alexandryn.Base.{
  ℕ, ◌≡◌, refl, ap, ◌∙◌, subst, inl, inr, Bool, true, false, not, ◌&&◌, ◌||◌, List, [], ◌∷◌, ◌++◌,
  arith, Bool-cases, filter, any, Text, text_eq, text_eq_iff, text_eq_refl,
}
use alexandryn.Catalogue.Collections.{CollectionMember, Collection, add_member, remove_member}

-- The work is a member.
unfoldable pub holds : Collection → Text → Bool
holds c x = any (λ m. text_eq m.work_id x) c.members

any-append_one :
    (ms : List CollectionMember) (n : CollectionMember) (x : Text)
    → any (λ m. text_eq m.work_id x) (ms ++ (n ∷ []))
      ≡ (any (λ m. text_eq m.work_id x) ms || text_eq n.work_id x)
unfolding any
any-append_one [] n x = ground arith
any-append_one (m ∷ ms) n x = ground (arith, any-append_one ms n x)

any-filter :
    (ms : List CollectionMember) (w x : Text)
    → any (λ m. text_eq m.work_id x) (filter (λ m. not (text_eq m.work_id w)) ms)
      ≡ (any (λ m. text_eq m.work_id x) ms && not (text_eq w x))
unfolding any filter
any-filter [] w x = refl
any-filter (m ∷ ms) w x =
    ground
      (arith, any-filter ms w x, text_eq_iff m.work_id w, text_eq_iff m.work_id x, text_eq_iff w x)

filter-appended :
    (ms : List CollectionMember) (n : CollectionMember)
    → any (λ m. text_eq m.work_id n.work_id) ms ≡ false
    → filter (λ m. not (text_eq m.work_id n.work_id)) (ms ++ (n ∷ [])) ≡ ms
unfolding any filter
filter-appended [] n h = rw (text_eq_refl n.work_id)
filter-appended (m ∷ ms) n h = ground (arith, filter-appended ms n)

pub data Call : Type 0 where
  adding : Text → ℕ → Call
  removing : Text → Call

apply : Collection → Call → Collection
apply c (adding w at) = add_member c w at
apply c (removing w) = remove_member c w

pub run : Collection → List Call → Collection
run c [] = c
run c (k ∷ ks) = run (apply c k) ks

-- Whether a work that was a member (`was`) is one after the calls: the last call for it decides.
pub last_call : Bool → List Call → Text → Bool
last_call was [] x = was
last_call was (adding w at ∷ ks) x = last_call (was || text_eq w x) ks x
last_call was (removing w ∷ ks) x = last_call (was && not (text_eq w x)) ks x

apply-holds :
    (c : Collection) (k : Call) (x : Text) → holds (apply c k) x ≡ last_call (holds c x) (k ∷ []) x
unfolding holds apply add_member remove_member last_call
apply-holds c (adding w at) x = elim (Bool-cases (any (λ m. text_eq m.work_id w) c.members)) [
  | inl there ↦ rw (there, add_member) (present c.members there)
  | inr new ↦
      rw (new, add_member) (any-append_one c.members (record { work_id = w; added_at = at }) x)
]
  where
    present :
        (ms : List CollectionMember)
        → any (λ m. text_eq m.work_id w) ms ≡ true
        → any (λ m. text_eq m.work_id x) ms ≡ (any (λ m. text_eq m.work_id x) ms || text_eq w x)
    present ms h = elim (Bool-cases (text_eq w x)) [
      | inl e ↦
          let same : w ≡ x = (text_eq_iff w x).0 e in
          let hit : any (λ m. text_eq m.work_id x) ms ≡ true =
            subst (λ (y : Text). any (λ m. text_eq m.work_id y) ms ≡ true) same h in
          ground arith
      | inr n ↦ ground arith
    ]
apply-holds c (removing w) x = any-filter c.members w x

-- After any sequence of additions and removals a work is a member exactly if the last call that
-- names it added it, or none names it and it was one.
pub run-holds :
    (c : Collection) (ks : List Call) (x : Text) → holds (run c ks) x ≡ last_call (holds c x) ks x
unfolding run last_call
run-holds c [] x = refl
run-holds c (adding w at ∷ ks) x =
    run-holds (apply c (adding w at)) ks x
    ∙ ap (λ (b : Bool). last_call b ks x) (apply-holds c (adding w at) x)
run-holds c (removing w ∷ ks) x =
    run-holds (apply c (removing w)) ks x
    ∙ ap (λ (b : Bool). last_call b ks x) (apply-holds c (removing w) x)

-- Removing a work that was just added gives back the collection, if the work was no member; and an
-- addition is not repeated: the time of the first stays.
pub remove_member-add_member :
    (c : Collection) (w : Text) (at later : ℕ)
    → holds c w ≡ false
    → (remove_member (add_member c w at) w ≡ c)
      × (add_member (add_member c w at) w later ≡ add_member c w at)
unfolding holds add_member remove_member
remove_member-add_member c w at later h = (
  rw (h, filter-appended c.members (record { work_id = w; added_at = at }) h),
  rw (h, any-append_one c.members (record { work_id = w; added_at = at }) w, h, text_eq_refl w),
)
