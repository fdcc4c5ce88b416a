-- ===== src/Works/Resolve/Group.antt =====
-- collectMergeGroup against the works whose merges end at the canonical work.
use mathlib.Core.List.{map-append}
use alexandryn.Base.{
  ℕ, zero, suc, ◌<◌, ◌≡◌, refl, sym, ap, ◌∙◌, subst, ◌↔◌, ◌⊎◌, inl, inr, Option, none, some, List,
  [], ◌∷◌, ◌++◌, map, arith, length, Text, Result, ok,
}
use alexandryn.Merging.Chain.Ends.{Ends}
use alexandryn.Merging.Chain.Total.{fresh, fresh-cons_lt}
use alexandryn.Merging.Members.{
  In, In-of_member, member_of_In, member_of_not_In, In-append, In-append_left, In-append_right,
  Distinct, Distinct-append,
}
use alexandryn.Works.{
  Work, WorkStore, find_by_id, find_merged_into, find_by_id-id, merged_into_of,
  merged_into_of-found, ids,
}
use alexandryn.Works.Resolve.{work_id, collect_loop, collect_merge_group}
use alexandryn.Works.Resolve.Canonical.{IsCanonicalOf, fuel_suffices}
use alexandryn.Works.Resolve.Members.{
  members_of, members_known, members_Distinct, members_parent, members_complete,
}

-- The state of the loop: `taken` are the ids whose members were fetched, newest first.
module _ (works : WorkStore) (keyed : Distinct (ids works)) (c : Text)
    (root : merged_into_of works c ≡ ok none) where
  abbrev next : Text → Result (Option Text)
  next = merged_into_of works

  record Inv (taken queue : List Text) : Type 0 where
    waiting : (x : Text) → In x queue → In x taken → ⊥
    distinct : Distinct queue
    known : (x : Text) → In x queue → In x (ids works)
    rooted :
        (x : Text)
        → In x taken ⊎ In x queue
        → (x ≡ c) ⊎ ((p : Text) × (next x ≡ ok (some p)) × In p taken)
    closed : (x p : Text) → next x ≡ ok (some p) → In p taken → In x taken ⊎ In x queue
    started : In c taken ⊎ In c queue
    sound : (x : Text) → In x taken ⊎ In x queue → IsCanonicalOf works x c

  -- A member of the id that is taken next was in neither list.
  members_new :
      (taken queue : List Text) (a x : Text)
      → Inv taken (a ∷ queue)
      → In x (members_of works a)
      → In x taken ⊎ In x (a ∷ queue)
      → ⊥
  members_new taken queue a x inv m old = elim (inv.rooted x old) [
    | inl e ↦ cc (root, rw e at (members_parent works a x keyed m))
    | inr (p, q, there) ↦
        let same : p ≡ a = cc (q, members_parent works a x keyed m) in
        inv.waiting a (inl refl) (subst (λ (y : Text). In y taken) same there)
  ]

  -- What was waiting or taken is so after the round.
  shift :
      (taken queue : List Text) (a x : Text)
      → In x taken ⊎ In x (a ∷ queue)
      → In x (a ∷ taken) ⊎ In x (queue ++ members_of works a)
  shift taken queue a x (inl t) = inl (inr t)
  shift taken queue a x (inr (inl e)) = inl (inl e)
  shift taken queue a x (inr (inr q)) = inr (In-append_left x queue (members_of works a) q)

  unshift :
      (taken queue : List Text) (a x : Text)
      → In x (a ∷ taken) ⊎ In x (queue ++ members_of works a)
      → (In x taken ⊎ In x (a ∷ queue)) ⊎ In x (members_of works a)
  unshift taken queue a x (inl (inl e)) = inl (inr (inl e))
  unshift taken queue a x (inl (inr t)) = inl (inl t)
  unshift taken queue a x (inr q) = elim (In-append x queue (members_of works a) q) [
    | inl l ↦ inl (inr (inr l))
    | inr m ↦ inr m
  ]

  Inv-step :
      (taken queue : List Text) (a : Text)
      → Inv taken (a ∷ queue)
      → Inv (a ∷ taken) (queue ++ members_of works a)
  Inv-step taken queue a inv = record {
    waiting = λ x q t. elim (In-append x queue (members_of works a) q) [
      | inl l ↦ elim t [
        | inl e ↦ inv.distinct.0 (subst (λ (y : Text). In y queue) (sym e) l)
        | inr k ↦ inv.waiting x (inr l) k
      ]
      | inr m ↦ elim t [
        | inl e ↦ members_new taken queue a x inv m (inr (inl e))
        | inr k ↦ members_new taken queue a x inv m (inl k)
      ]
    ];
    distinct =
        Distinct-append queue (members_of works a) inv.distinct.1 (members_Distinct works a keyed)
          (λ x l m. members_new taken queue a x inv m (inr (inr l)));
    known = λ x q. elim (In-append x queue (members_of works a) q) [
      | inl l ↦ inv.known x (inr l)
      | inr m ↦ members_known works a x m
    ];
    rooted = λ x h. elim (unshift taken queue a x h) [
      | inl old ↦ elim (inv.rooted x old) [ inl e ↦ inl e | inr (p, e, k) ↦ inr (p, e, inr k) ]
      | inr m ↦ inr (a, members_parent works a x keyed m, inl refl)
    ];
    sound = λ x h. elim (unshift taken queue a x h) [
      | inl old ↦ inv.sound x old
      | inr m ↦
          let (n, chain) = inv.sound a (inr (inl refl)) in
          (suc n, (a, members_parent works a x keyed m, chain))
    ];
    closed = λ x p e h. elim h [
      | inl same ↦ inr (
          In-append_right x queue (members_of works a)
            (members_complete works a x (e ∙ ap (λ (y : Text). ok (some y)) (sym same))))
      | inr k ↦ shift taken queue a x (inv.closed x p e k)
    ];
    started = shift taken queue a c inv.started;
  }

  -- The ids of the group are those taken or waiting.
  abbrev Lists : List Work → List Text → List Text → Type 0
  Lists group taken queue = (x : Text) → In x (map work_id group) ↔ (In x taken ⊎ In x queue)

  Lists-step :
      (group : List Work) (taken queue : List Text) (a : Text)
      → Lists group taken (a ∷ queue)
      → Lists (group ++ find_merged_into works a) (a ∷ taken) (queue ++ members_of works a)
  Lists-step group taken queue a l x = rw (map-append work_id group (find_merged_into works a)) (
    λ h. elim (In-append x (map work_id group) (members_of works a) h) [
      | inl g ↦ shift taken queue a x ((l x).0 g)
      | inr m ↦ inr (In-append_right x queue (members_of works a) m)
    ],
    λ h. elim (unshift taken queue a x h) [
      | inl old ↦ In-append_left x (map work_id group) (members_of works a) ((l x).1 old)
      | inr m ↦ In-append_right x (map work_id group) (members_of works a) m
    ],
  )

  -- At the end every chain that ends at `c` was taken.
  Inv-complete :
      (taken : List Text) → Inv taken [] → (n : ℕ) (x : Text) → Ends next n x c → In x taken
  Inv-complete taken inv zero x (p, e) = elim inv.started [
    | inl k ↦ subst (λ (y : Text). In y taken) (sym e) k
    | inr k ↦ absurd k
  ]
  Inv-complete taken inv (suc n) x (p, e, q) =
      elim (inv.closed x p e (Inv-complete taken inv n p q)) [ inl k ↦ k | inr k ↦ absurd k ]

  -- The group holds exactly the works whose merges end at `c`.
  abbrev IsGroup : List Work → Type 0
  IsGroup group = (x : Text) → In x (map work_id group) ↔ IsCanonicalOf works x c

  collect_loop_lem :
      (fuel : ℕ) (group : List Work) (taken queue : List Text)
      → fresh (ids works) taken < fuel
      → Inv taken queue
      → Lists group taken queue
      → (g : List Work) × (collect_loop fuel works group queue ≡ some g) × IsGroup g
  unfolding collect_loop
  collect_loop_lem zero group taken queue h inv l = absurd (omega arith)
  collect_loop_lem (suc fuel) group taken [] h inv l = (
    group,
    refl,
    λ x. (
      λ k. inv.sound x ((l x).0 k),
      λ (n, chain). (l x).1 (inl (Inv-complete taken inv n x chain)),
    ),
  )
  collect_loop_lem (suc fuel) group taken (a ∷ queue) h inv l =
      collect_loop_lem fuel (group ++ find_merged_into works a) (a ∷ taken)
        (queue ++ members_of works a)
        (omega (
          arith,
          fresh-cons_lt (ids works) taken a (member_of_In a (ids works) (inv.known a (inl refl)))
              (member_of_not_In a taken (inv.waiting a (inl refl))),
        ))
        (Inv-step taken queue a inv) (Lists-step group taken queue a l)

  collect_from :
      (w : Work)
      → find_by_id works c ≡ ok w
      → (g : List Work) × (collect_merge_group works c ≡ some (ok g)) × IsGroup g
  unfolding collect_merge_group
  collect_from w f =
      let named : w.id ≡ c = find_by_id-id works c w f in
      let (g, run, is) =
        collect_loop_lem (suc (length works)) (w ∷ []) [] (c ∷ []) (fuel_suffices works) start (λ x.
          (
            λ h. elim h [ inl e ↦ inr (inl (sym named ∙ e)) | inr k ↦ absurd k ],
            λ h. elim h [
              | inl k ↦ absurd k
              | inr q ↦ elim q [ inl e ↦ inl (named ∙ e) | inr k ↦ absurd k ]
            ],
          )) in
      (g, rw (f, run), is)
    where
      start : Inv [] (c ∷ [])
      start = record {
        waiting = λ x q t. t;
        distinct = (λ h. h, tt);
        known = λ x q. elim q [
          | inl e ↦
              subst (λ (y : Text). In y (ids works)) e
                (In-of_member c (ids works) (merged_into_of-found works c none root))
          | inr k ↦ absurd k
        ];
        rooted = λ x h. elim h [
          | inl k ↦ absurd k
          | inr q ↦ elim q [ inl e ↦ inl (sym e) | inr k ↦ absurd k ]
        ];
        sound = λ x h. elim h [
          | inl k ↦ absurd k
          | inr q ↦ elim q [
            | inl e ↦ (0, (subst (λ (y : Text). next y ≡ ok none) e root, sym e))
            | inr k ↦ absurd k
          ]
        ];
        closed = λ x p e k. absurd k;
        started = inr (inl refl);
      }

-- From a work that is merged into nothing, with ids that are unique as the primary key makes them,
-- the loop ends with a group, whatever cycles the rest of the store holds; and an id is in the group
-- exactly if its merges end at that work.
pub collect_merge_group_lem :
    (works : WorkStore) (c : Text) (w : Work)
    → Distinct (ids works)
    → find_by_id works c ≡ ok w
    → w.merged_into ≡ none
    → (g : List Work) × (collect_merge_group works c ≡ some (ok g))
      × ((x : Text) → In x (map work_id g) ↔ IsCanonicalOf works x c)
collect_merge_group_lem works c w keyed f free =
    collect_from works keyed c
      (unfold merged_into_of in rw (f) (ap (λ (o : Option Text). ok o) free)) w f
