-- ===== src/Merging/Chain/Ends.antt =====
-- What the merge loops compute: the end of a chain of merge references, and whether the chain
-- passes a given identifier.
use alexandryn.Base.{
  ℕ, zero, suc, ◌<◌, ◌≡◌, refl, sym, ap, ◌∙◌, subst, inl, inr, true, false, Option, none, some,
  List, ◌∷◌, arith, Bool-cases, any, Text, text_eq, text_eq_iff, Result, ok,
}
use alexandryn.Merging.Chain.{member, resolve_loop, reachable_loop}
use alexandryn.Merging.Chain.Total.{fresh, fresh-cons_lt, Next-cases}

module _ (next : Text → Result (Option Text)) where
  -- The chain from `a` has `n` references and ends at `r`, which is merged into nothing.
  abbrev pub Ends : ℕ → Text → Text → Type 0
  Ends zero a r = (next a ≡ ok none) × (a ≡ r)
  Ends (suc n) a r = (b : Text) × (next a ≡ ok (some b)) × Ends n b r

  -- As `Ends`, and the chain does not pass `source`.
  abbrev pub EndsOff : Text → ℕ → Text → Text → Type 0
  EndsOff source zero a r = (text_eq a source ≡ false) × (next a ≡ ok none) × (a ≡ r)
  EndsOff source (suc n) a r =
      (text_eq a source ≡ false) × ((b : Text) × (next a ≡ ok (some b)) × EndsOff source n b r)

  -- The chain from `a` comes to `source` after `n` references.
  abbrev pub Passes : Text → ℕ → Text → Type 0
  Passes source zero a = a ≡ source
  Passes source (suc n) a = (b : Text) × (next a ≡ ok (some b)) × Passes source n b

  target_unique : (a b c : Text) → next a ≡ ok (some b) → next a ≡ ok (some c) → b ≡ c
  target_unique a b c p q = cc

  -- A chain has one length and one end.
  Ends-unique : (n m : ℕ) (a r s : Text) → Ends n a r → Ends m a s → (n ≡ m) × (r ≡ s)
  Ends-unique zero zero a r s p q = (refl, sym p.1 ∙ q.1)
  Ends-unique zero (suc m) a r s p q = cc (p.0, q.1)
  Ends-unique (suc n) zero a r s p q = cc (p.1, q.0)
  Ends-unique (suc n) (suc m) a r s p q =
      let same : p.0 ≡ q.0 = target_unique a p.0 q.0 p.1 q.1 in
      let (len, end) = Ends-unique n m q.0 r s (subst (λ (x : Text). Ends n x r) same p.2) q.2 in
      (ap suc len, end)

  -- Everything seen so far lies further from the end.
  abbrev Behind : ℕ → Text → List Text → Type 0
  Behind n r seen = (x : Text) → member x seen ≡ true → (m : ℕ) × (n < m) × Ends m x r

  not_seen :
      (n : ℕ) (a r : Text) (seen : List Text) → Ends n a r → Behind n r seen → member a seen ≡ false
  not_seen n a r seen p b = elim (Bool-cases (member a seen)) [
    | inl old ↦
        let (m, far, q) = b a old in
        let same : n ≡ m = (Ends-unique n m a r r p q).0 in absurd (omega arith)
    | inr new ↦ new
  ]

  Behind-cons :
      (n : ℕ) (a b r : Text) (seen : List Text)
      → next a ≡ ok (some b)
      → Ends n b r
      → Behind (suc n) r seen
      → Behind n r (a ∷ seen)
  unfolding member any
  Behind-cons n a b r seen p q h x old = elim (Bool-cases (text_eq a x)) [
    | inl same ↦
        let e : a ≡ x = (text_eq_iff a x).0 same in
        (suc n, omega arith, subst (λ (y : Text). Ends (suc n) y r) e (b, p, q))
    | inr other ↦ let (m, far, s) = h x (rw other at old) in (m, omega arith, s)
  ]

  -- A result of the loop is the end of the chain.
  pub resolve_loop-Ends :
      (fuel : ℕ) (seen : List Text) (a r : Text)
      → resolve_loop next fuel seen a ≡ some (ok r)
      → (n : ℕ) × Ends n a r
  unfolding resolve_loop
  resolve_loop-Ends zero seen a r h = cc
  resolve_loop-Ends (suc fuel) seen a r h = elim (Bool-cases (member a seen)) [
    | inl old ↦ cc (rw (old, resolve_loop) at h)
    | inr new ↦ elim (Next-cases (next a)) [
      | inl (e, p) ↦ cc (rw (new, p, resolve_loop) at h)
      | inr (inl p) ↦ (0, (p, ground arith))
      | inr (inr (b, p)) ↦
          let (n, q) = resolve_loop-Ends fuel (a ∷ seen) b r (ground arith) in (suc n, (b, p, q))
    ]
  ]

  -- A walk that ends without meeting `source` on a chain that has an end has walked all of it.
  pub reachable_loop-EndsOff :
      (source : Text) (fuel : ℕ) (visited : List Text) (n : ℕ) (a r : Text)
      → Ends n a r
      → Behind n r visited
      → reachable_loop next source fuel visited a ≡ some (ok false)
      → EndsOff source n a r
  unfolding reachable_loop
  reachable_loop-EndsOff source zero visited n a r p b h = cc
  reachable_loop-EndsOff source (suc fuel) visited zero a r p b h = (ground arith, p.0, p.1)
  reachable_loop-EndsOff source (suc fuel) visited (suc n) a r p b h =
      let new : member a visited ≡ false = not_seen (suc n) a r visited p b in
      elim (Bool-cases (text_eq a source)) [
        | inl there ↦ cc (rw (there, reachable_loop) at h)
        | inr off ↦ (
          off,
          (
            p.0,
            p.1,
            reachable_loop-EndsOff source fuel (a ∷ visited) n p.0 r p.2
                (Behind-cons n a p.0 r visited p.1 p.2 b) (ground arith),
          ),
        )
      ]

  -- With enough fuel the loop finds the end of a chain that has one.
  module _ (dom : List Text)
      (complete : (a : Text) (o : Option Text) → next a ≡ ok o → member a dom ≡ true) where
    pub resolve_loop_finds :
        (fuel : ℕ) (seen : List Text) (n : ℕ) (a r : Text)
        → Ends n a r
        → Behind n r seen
        → fresh dom seen < fuel
        → resolve_loop next fuel seen a ≡ some (ok r)
    unfolding resolve_loop
    resolve_loop_finds zero seen n a r p b h = elim h [ ]
    resolve_loop_finds (suc fuel) seen zero a r p b h =
        let new : member a seen ≡ false = not_seen zero a r seen p b in
        rw (new, p.0) (ap (λ (x : Text). some (ok x)) p.1)
    resolve_loop_finds (suc fuel) seen (suc n) a r p b h =
        let new : member a seen ≡ false = not_seen (suc n) a r seen p b in
        rw (new, p.1)
          (resolve_loop_finds fuel (a ∷ seen) n p.0 r p.2 (Behind-cons n a p.0 r seen p.1 p.2 b)
            (omega (arith, fresh-cons_lt dom seen a (complete a (some p.0) p.1) new)))

    -- With enough fuel the walk meets a `source` that lies on such a chain.
    pub reachable_loop_finds :
        (source : Text) (fuel : ℕ) (visited : List Text) (n k : ℕ) (a r : Text)
        → Ends n a r
        → Passes source k a
        → Behind n r visited
        → fresh dom visited < fuel
        → reachable_loop next source fuel visited a ≡ some (ok true)
    unfolding reachable_loop
    reachable_loop_finds source zero visited n k a r p q b h = elim h [ ]
    reachable_loop_finds source (suc fuel) visited n zero a r p q b h =
        rw ((text_eq_iff a source).1 q)
    reachable_loop_finds source (suc fuel) visited zero (suc k) a r p q b h = cc (p.0, q.1)
    reachable_loop_finds source (suc fuel) visited (suc n) (suc k) a r p q b h =
        let new : member a visited ≡ false = not_seen (suc n) a r visited p b in
        let same : q.0 ≡ p.0 = target_unique a q.0 p.0 q.1 p.1 in
        let rest =
          reachable_loop_finds source fuel (a ∷ visited) n k p.0 r p.2
            (subst (λ (x : Text). Passes source k x) same q.2)
            (Behind-cons n a p.0 r visited p.1 p.2 b)
            (omega (arith, fresh-cons_lt dom visited a (complete a (some p.0) p.1) new)) in
        elim (Bool-cases (text_eq a source)) [
          | inl there ↦ rw there
          | inr off ↦ rw (off, new, p.1) rest
        ]

-- A chain off `source` is the same where only `source` is merged anew.
module _ (next next' : Text → Result (Option Text)) (source : Text)
    (same : (a : Text) → text_eq a source ≡ false → next' a ≡ next a) where
  pub EndsOff-moved : (n : ℕ) (a r : Text) → EndsOff next source n a r → Ends next' n a r
  EndsOff-moved zero a r (off, p, e) = (same a off ∙ p, e)
  EndsOff-moved (suc n) a r (off, (b, p, q)) = (b, same a off ∙ p, EndsOff-moved n b r q)

  -- Every chain that had an end has one still, if the chain from `source` now has.
  pub Ends-moved :
      (k : ℕ) (s : Text)
      → Ends next' k source s
      → (n : ℕ) (a r : Text) → Ends next n a r
      → (m : ℕ) × ((t : Text) × Ends next' m a t)
  Ends-moved k s e zero a r p = elim (Bool-cases (text_eq a source)) [
    | inl there ↦
        (k, (s, subst (λ (x : Text). Ends next' k x s) (sym ((text_eq_iff a source).0 there)) e))
    | inr off ↦ (0, (a, (same a off ∙ p.0, refl)))
  ]
  Ends-moved k s e (suc n) a r p =
      let (m, (t, q)) = Ends-moved k s e n p.0 r p.2 in
      elim (Bool-cases (text_eq a source)) [
        | inl there ↦ (
          k,
          (s, subst (λ (x : Text). Ends next' k x s) (sym ((text_eq_iff a source).0 there)) e),
        )
        | inr off ↦ (suc m, (t, (p.0, same a off ∙ p.1, q)))
      ]
