-- ===== src/Merging/Chain/Total.antt =====
-- The fuel of the merge loops, counted by the identifiers that were not seen yet.
use alexandryn.Base.{
  ℕ, zero, suc, ◌≤◌, ◌<◌, ◌≡◌, refl, ◌⊎◌, inl, inr, Bool, true, false, Option, none, some, List, [],
  ◌∷◌, arith, if◌then◌else◌, Bool-cases, length, any, Text, text_eq, text_eq_iff, text_eq_refl,
  internal, Error, error, Result, ok, err,
}
use alexandryn.Merging.Chain.{member, resolve_loop, reachable_loop}

-- How many of the stored identifiers are still to be seen.
pub fresh : List Text → List Text → ℕ
fresh [] seen = 0
fresh (x ∷ dom) seen = let rest = fresh dom seen in if member x seen then rest else suc rest

fresh-cons_le : (dom seen : List Text) (a : Text) → fresh dom (a ∷ seen) ≤ fresh dom seen
unfolding fresh member any
fresh-cons_le [] seen a = omega arith
fresh-cons_le (x ∷ dom) seen a = ground (arith, fresh-cons_le dom seen a)

pub fresh-cons_lt :
    (dom seen : List Text) (a : Text)
    → member a dom ≡ true
    → member a seen ≡ false
    → fresh dom (a ∷ seen) < fresh dom seen
unfolding fresh member any
fresh-cons_lt [] seen a d s = cc
fresh-cons_lt (x ∷ dom) seen a d s = elim (Bool-cases (text_eq x a)) [
  | inl same ↦
      let e : x ≡ a = (text_eq_iff x a).0 same in
      rw e (ground (arith, fresh-cons_le dom seen a, text_eq_refl a))
  | inr other ↦ ground (arith, fresh-cons_lt dom seen a, fresh-cons_le dom seen a)
]

pub fresh_le : (dom seen : List Text) → fresh dom seen ≤ length dom
unfolding fresh
fresh_le [] seen = omega arith
fresh_le (x ∷ dom) seen = ground (arith, fresh_le dom seen)

-- The three answers of FindByID and MergedInto.
pub Next-cases :
    (n : Result (Option Text))
    → ((e : Error) × (n ≡ err e)) ⊎ ((n ≡ ok none) ⊎ ((t : Text) × (n ≡ ok (some t))))
Next-cases (err e) = inl (e, refl)
Next-cases (ok none) = inr (inl refl)
Next-cases (ok (some t)) = inr (inr (t, refl))

-- `dom` lists every identifier that `next` finds.
module _ (next : Text → Result (Option Text)) (dom : List Text)
    (complete : (a : Text) (o : Option Text) → next a ≡ ok o → member a dom ≡ true) where
  -- With more fuel than identifiers left to see, resolving returns a result.
  pub resolve_loop_total :
      (fuel : ℕ) (seen : List Text) (current : Text)
      → fresh dom seen < fuel
      → (r : Result Text) × (resolve_loop next fuel seen current ≡ some r)
  unfolding resolve_loop
  resolve_loop_total zero seen current h = elim h [ ]
  resolve_loop_total (suc fuel) seen current h = elim (Bool-cases (member current seen)) [
    | inl old ↦ (err (error internal), rw old)
    | inr new ↦ elim (Next-cases (next current)) [
      | inl (e, p) ↦ (err e, rw (new, p))
      | inr (inl p) ↦ (ok current, rw (new, p))
      | inr (inr (target, p)) ↦
          rw (new, p)
            (resolve_loop_total fuel (current ∷ seen) target (
              omega (arith, fresh-cons_lt dom seen current (complete current (some target) p) new)))
    ]
  ]

  -- So does the walk that looks for the source of a merge.
  reachable_loop_total :
      (source : Text) (fuel : ℕ) (visited : List Text) (current : Text)
      → fresh dom visited < fuel
      → (r : Result Bool) × (reachable_loop next source fuel visited current ≡ some r)
  unfolding reachable_loop
  reachable_loop_total source zero visited current h = elim h [ ]
  reachable_loop_total source (suc fuel) visited current h =
      elim (Bool-cases (text_eq current source)) [
        | inl there ↦ (ok true, rw there)
        | inr elsewhere ↦ elim (Bool-cases (member current visited)) [
          | inl old ↦ (ok false, rw (elsewhere, old))
          | inr new ↦ elim (Next-cases (next current)) [
            | inl (e, p) ↦ (err e, rw (elsewhere, new, p))
            | inr (inl p) ↦ (ok false, rw (elsewhere, new, p))
            | inr (inr (target, p)) ↦
                rw (elsewhere, new, p)
                  (reachable_loop_total source fuel (current ∷ visited) target (
                    omega (
                      arith,
                      fresh-cons_lt dom visited current (complete current (some target) p) new,
                    )))
          ]
        ]
      ]
