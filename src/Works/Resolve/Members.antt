-- ===== src/Works/Resolve/Members.antt =====
-- The works that are merged into one work by one hop.

use alexandryn.Base.{
  ◌≡◌, sym, ap, ◌∙◌, subst, ◌≢◌, inl, inr, true, false, Option, none, some, List, [], ◌∷◌, map,
  arith, Bool-cases, filter, Text, text_eq, text_eq_iff, text_eq_refl, ok,
}
use alexandryn.Merging.Members.{In, Distinct}
use alexandryn.Works.{
  Work, WorkStore, find_by_id, find_merged_into, is_merged_into, merged_into_of, ids,
}
use alexandryn.Works.Resolve.{work_id}

-- The ids of the works that are merged into `a`.
abbrev pub members_of : WorkStore → Text → List Text
members_of works a = map work_id (find_merged_into works a)

pub members_known : (works : WorkStore) (a x : Text) → In x (members_of works a) → In x (ids works)
unfolding find_merged_into filter
members_known [] a x h = absurd h
members_known (w ∷ works) a x h = elim (Bool-cases (is_merged_into a w.merged_into)) [
  | inl m ↦ elim (rw (m, find_merged_into, filter) at h) [
    | inl e ↦ inl e
    | inr k ↦ inr (members_known works a x k)
  ]
  | inr n ↦ inr (members_known works a x (rw (n, find_merged_into, filter) at h))
]

pub members_Distinct :
    (works : WorkStore) (a : Text) → Distinct (ids works) → Distinct (members_of works a)
unfolding find_merged_into filter
members_Distinct [] a d = tt
members_Distinct (w ∷ works) a d = elim (Bool-cases (is_merged_into a w.merged_into)) [
  | inl m ↦
      rw (m, find_merged_into, filter)
        (λ h. d.0 (members_known works a w.id h), members_Distinct works a d.1)
  | inr n ↦ rw (n, find_merged_into, filter) (members_Distinct works a d.1)
]

target_of : (a : Text) (o : Option Text) → is_merged_into a o ≡ true → o ≡ some a
target_of a none h = cc
target_of a (some t) h = ap (λ (x : Text). some x) ((text_eq_iff t a).0 h)

not_target : (a : Text) (o : Option Text) → is_merged_into a o ≡ false → o ≢ some a
not_target a none h = λ e. cc
not_target a (some t) h = λ e. ground (arith, text_eq_iff t a)

merged_into_of-head :
    (w : Work) (works : WorkStore) (x : Text)
    → w.id ≡ x
    → merged_into_of (w ∷ works) x ≡ ok w.merged_into
unfolding merged_into_of find_by_id
merged_into_of-head w works x e = rw ((text_eq_iff w.id x).1 e)

merged_into_of-tail :
    (w : Work) (works : WorkStore) (x : Text)
    → w.id ≢ x
    → merged_into_of (w ∷ works) x ≡ merged_into_of works x
unfolding merged_into_of find_by_id
merged_into_of-tail w works x n = ground (arith, text_eq_iff w.id x)

pub members_parent :
    (works : WorkStore) (a x : Text)
    → Distinct (ids works)
    → In x (members_of works a)
    → merged_into_of works x ≡ ok (some a)
unfolding find_merged_into filter
members_parent [] a x d h = absurd h
members_parent (w ∷ works) a x d h = elim (Bool-cases (is_merged_into a w.merged_into)) [
  | inl m ↦ elim (rw (m, find_merged_into, filter) at h) [
    | inl e ↦
        merged_into_of-head w works x e
        ∙ ap (λ (o : Option Text). ok o) (target_of a w.merged_into m)
    | inr k ↦ later k (members_parent works a x d.1 k)
  ]
  | inr n ↦
      let k : In x (members_of works a) = rw (n, find_merged_into, filter) at h in
      later k (members_parent works a x d.1 k)
]
  where
    later :
        In x (members_of works a)
        → merged_into_of works x ≡ ok (some a)
        → merged_into_of (w ∷ works) x ≡ ok (some a)
    later k ih =
        merged_into_of-tail w works x
          (λ e. d.0 (subst (λ (y : Text). In y (ids works)) (sym e) (members_known works a x k)))
        ∙ ih

pub members_complete :
    (works : WorkStore) (a x : Text)
    → merged_into_of works x ≡ ok (some a)
    → In x (members_of works a)
unfolding find_merged_into filter
members_complete [] a x h = unfold merged_into_of find_by_id in cc h
members_complete (w ∷ works) a x h = elim (Bool-cases (text_eq w.id x)) [
  | inl e ↦
      let hit : w.merged_into ≡ some a =
        cc (h, merged_into_of-head w works x ((text_eq_iff w.id x).0 e)) in
      rw (hit, text_eq_refl a, find_merged_into, filter) (inl ((text_eq_iff w.id x).0 e))
  | inr n ↦
      let skip : merged_into_of (w ∷ works) x ≡ merged_into_of works x =
        merged_into_of-tail w works x (λ e. cc (n, (text_eq_iff w.id x).1 e)) in
      let later = members_complete works a x (sym skip ∙ h) in
      elim (Bool-cases (is_merged_into a w.merged_into)) [
        | inl m ↦ rw (m, find_merged_into, filter) (inr later)
        | inr o ↦ rw (o, find_merged_into, filter) later
      ]
]
