-- ===== src/Progress/Reconcile.antt =====
-- Reconciling reports: the rule, the fold over any order, and the override.
use alexandryn.Base.{
  ℕ, ◌≡◌, refl, sym, ap, ◌∙◌, subst, ◌↔◌, ◌⊎◌, inl, inr, true, false, Option, List, [], ◌∷◌, arith,
  Bool-cases, ℤ, pos, ltb_ℤ, leb_ℤ, ◌<ℤ◌, max_int64, int64_suc, int64_suc_grows, Text, ok,
}
use alexandryn.Progress.{
  Float, PrecisePosition, ReadingProgress, ProgressReport, rejected, new_percentage, advance,
  reconcile_progress, override_progress, fold_reports,
}

abbrev pub HasReport : {F : Type 0} → ProgressReport F → List (ProgressReport F) → Type 0
HasReport r [] = ⊥
HasReport r (x ∷ xs) = (x ≡ r) ⊎ HasReport r xs

module _ (fl : Float) where
  open fl use {F, lt, eq}

  not_lt_trans :
      (a b c : F)
      → fl.is_nan a ≡ false
      → fl.is_nan b ≡ false
      → lt a b ≡ false
      → lt b c ≡ false
      → lt a c ≡ false
  not_lt_trans a b c na nb p q = elim (Bool-cases (lt a c)) [
    | inr n ↦ n
    | inl h ↦ elim (fl.compare_total a b na nb) [
      | inl x ↦ cc (x, p)
      | inr (inl x) ↦ cc (fl.eq_lt b a c (fl.eq_sym a b x) h, q)
      | inr (inr x) ↦ cc (fl.lt_trans b a c x h, q)
    ]
  ]

  lt_asym : (a b : F) → lt a b ≡ true → lt b a ≡ false
  lt_asym a b h = elim (Bool-cases (lt b a)) [
    | inl k ↦ cc (fl.lt_trans a b a h k, fl.lt_irrefl a)
    | inr n ↦ n
  ]

  -- The report was made at the stored epoch or above, and is a number.
  abbrev IsFresh : ℤ → ProgressReport F → Type 0
  IsFresh epoch r = (ltb_ℤ r.observed_epoch epoch ≡ false) × (fl.is_nan r.percentage ≡ false)

  -- What one report makes of the canonical value.
  record Stepped (c d : ReadingProgress F) (r : ProgressReport F) : Type 0 where
    same_epoch : d.epoch ≡ c.epoch
    above_old : lt d.percentage c.percentage ≡ false
    above_new : lt d.percentage r.percentage ≡ false
    attained : (d.percentage ≡ c.percentage) ⊎ (d.percentage ≡ r.percentage)

  reconcile-Stepped :
      (c : ReadingProgress F) (r : ProgressReport F)
      → IsFresh c.epoch r
      → Stepped c (reconcile_progress fl c r).0 r
  unfolding reconcile_progress
  reconcile-Stepped c r (e, n) = elim (Bool-cases (lt c.percentage r.percentage)) [
    | inl up ↦
        rw (e, up, reconcile_progress)
          (record {
            same_epoch = refl;
            above_old = lt_asym c.percentage r.percentage up;
            above_new = fl.lt_irrefl r.percentage;
            attained = inr refl;
          })
    | inr stay ↦
        let same : (reconcile_progress fl c r).0 ≡ c = ground arith in
        rw same (record {
          same_epoch = refl;
          above_old = fl.lt_irrefl c.percentage;
          above_new = stay;
          attained = inl refl;
        })
  ]

  abbrev AllFresh : ℤ → List (ProgressReport F) → Type 0
  AllFresh epoch [] = Unit
  AllFresh epoch (r ∷ rs) = IsFresh epoch r × AllFresh epoch rs

  -- The fold holds the greatest percentage.
  record IsMax (c d : ReadingProgress F) (rs : List (ProgressReport F)) : Type 0 where
    same_epoch : d.epoch ≡ c.epoch
    number : fl.is_nan d.percentage ≡ false
    above_old : lt d.percentage c.percentage ≡ false
    above_new : (r : ProgressReport F) → HasReport r rs → lt d.percentage r.percentage ≡ false
    attained :
        (d.percentage ≡ c.percentage)
        ⊎ ((r : ProgressReport F) × HasReport r rs × (d.percentage ≡ r.percentage))

  fold-IsMax :
      (c : ReadingProgress F) (rs : List (ProgressReport F))
      → fl.is_nan c.percentage ≡ false
      → AllFresh c.epoch rs
      → IsMax c (fold_reports fl c rs) rs
  unfolding fold_reports
  fold-IsMax c [] n h = record {
    same_epoch = refl;
    number = n;
    above_old = fl.lt_irrefl c.percentage;
    above_new = λ r k. absurd k;
    attained = inl refl;
  }
  fold-IsMax c (r ∷ rs) n (f, fs) =
      let s = reconcile-Stepped c r f in
      let d = (reconcile_progress fl c r).0 in
      let nd : fl.is_nan d.percentage ≡ false = elim s.attained [
        | inl e ↦ ap fl.is_nan e ∙ n
        | inr e ↦ ap fl.is_nan e ∙ f.1
      ] in
      let m = fold-IsMax d rs nd (subst (λ (z : ℤ). AllFresh z rs) (sym s.same_epoch) fs) in
      record {
        same_epoch = m.same_epoch ∙ s.same_epoch;
        number = m.number;
        above_old = not_lt_trans _ d.percentage c.percentage m.number nd m.above_old s.above_old;
        above_new = λ x k. elim k [
          | inl e ↦
              subst
                (λ (y : ProgressReport F).
                  lt (fold_reports fl d rs).percentage y.percentage ≡ false)
                e (not_lt_trans _ d.percentage r.percentage m.number nd m.above_old s.above_new)
          | inr i ↦ m.above_new x i
        ];
        attained = elim m.attained [
          | inl e ↦ elim s.attained [ inl k ↦ inl (e ∙ k) | inr k ↦ inr (r, inl refl, e ∙ k) ]
          | inr (x, i, e) ↦ inr (x, inr i, e)
        ];
      }

  -- One maximum is not below another over the same reports.
  IsMax-not_lt :
      (c d e : ReadingProgress F) (xs ys : List (ProgressReport F))
      → ((r : ProgressReport F) → HasReport r ys → HasReport r xs)
      → IsMax c d xs
      → IsMax c e ys
      → lt d.percentage e.percentage ≡ false
  IsMax-not_lt c d e xs ys sub p q = elim q.attained [
    | inl k ↦ subst (λ (x : F). lt d.percentage x ≡ false) (sym k) p.above_old
    | inr (r, i, k) ↦ subst (λ (x : F). lt d.percentage x ≡ false) (sym k) (p.above_new r (sub r i))
  ]

  -- Reports made at the stored epoch or above, with no NaN among the percentages, folded in any
  -- order and any number of times, leave the epoch and an equal percentage, which is that of the
  -- stored value or of one of the reports and below none of them.
  pub fold_reports_order :
      (c : ReadingProgress F) (xs ys : List (ProgressReport F))
      → fl.is_nan c.percentage ≡ false
      → AllFresh c.epoch xs
      → AllFresh c.epoch ys
      → ((r : ProgressReport F) → HasReport r xs ↔ HasReport r ys)
      → let d = fold_reports fl c xs in
        let e = fold_reports fl c ys in
        (eq d.percentage e.percentage ≡ true)
        × (d.epoch ≡ c.epoch)
        × ((r : ProgressReport F) → HasReport r xs → lt d.percentage r.percentage ≡ false)
        × ((d.percentage ≡ c.percentage)
            ⊎ ((r : ProgressReport F) × HasReport r xs × (d.percentage ≡ r.percentage)))
  fold_reports_order c xs ys n fx fy same =
      let p = fold-IsMax c xs n fx in
      let q = fold-IsMax c ys n fy in
      (
        elim (fl.compare_total _ _ p.number q.number) [
          | inl x ↦ cc (x, IsMax-not_lt c _ _ xs ys (λ r. (same r).1) p q)
          | inr (inl x) ↦ x
          | inr (inr x) ↦ cc (x, IsMax-not_lt c _ _ ys xs (λ r. (same r).0) q p)
        ],
        p.same_epoch,
        p.above_new,
        p.attained,
      )

  -- The provenance does depend on the order: of two reports with equal percentages above the stored
  -- one, the first to arrive is the one that is kept.
  pub fold_reports_first :
      (c : ReadingProgress F) (r s : ProgressReport F)
      → IsFresh c.epoch r
      → IsFresh c.epoch s
      → lt c.percentage r.percentage ≡ true
      → lt c.percentage s.percentage ≡ true
      → eq r.percentage s.percentage ≡ true
      → (fold_reports fl c (r ∷ s ∷ []) ≡ advance fl c r)
        × (fold_reports fl c (s ∷ r ∷ []) ≡ advance fl c s)
  unfolding fold_reports
  fold_reports_first c r s (er, nr) (es, ns) ur us e =
      let e' = fl.eq_sym r.percentage s.percentage e in
      let down : lt r.percentage s.percentage ≡ false = not_lt r.percentage s.percentage e in
      let up : lt s.percentage r.percentage ≡ false = not_lt s.percentage r.percentage e' in
      (ground arith, ground arith)
    where
      not_lt : (a b : F) → eq a b ≡ true → lt a b ≡ false
      not_lt a b k = elim (Bool-cases (lt a b)) [
        | inl h ↦ cc (fl.eq_lt b a b (fl.eq_sym a b k) h, fl.lt_irrefl b)
        | inr n ↦ n
      ]

  -- After an override every report made at the old epoch or before is refused and changes nothing,
  -- until the epoch counter is exhausted.
  pub override_progress-rejects :
      (c : ReadingProgress F) (target : F) (position : Option PrecisePosition) (device_id : Text)
      (at : ℕ) (r : ProgressReport F)
      → c.epoch <ℤ pos max_int64
      → leb_ℤ r.observed_epoch c.epoch ≡ true
      → reconcile_progress fl (override_progress fl c target position device_id at) r
        ≡ (override_progress fl c target position device_id at, rejected)
  unfolding reconcile_progress override_progress
  override_progress-rejects c target position device_id at r h k =
      let grows = int64_suc_grows c.epoch h in
      let late : ltb_ℤ r.observed_epoch (int64_suc c.epoch) ≡ true = ground arith in rw late

  -- NewPercentage accepts every NaN, since a NaN compares neither below 0 nor above 1.
  new_percentage_nan : (v : F) → fl.is_nan v ≡ true → new_percentage fl v ≡ ok v
  unfolding new_percentage
  new_percentage_nan v n = rw ((fl.nan_lt v fl.zero n).0, (fl.nan_lt v fl.one n).1)
