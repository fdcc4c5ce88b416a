-- ===== src/Limits/Maps.antt =====
-- The map of limiters, entry by entry.
use alexandryn.Base.{
  ◌≡◌, refl, ◌∙◌, subst, inl, inr, Bool, false, Option, none, some, [], ◌∷◌, if◌then◌else◌,
  Bool-cases, Text, text_eq, text_eq_iff, text_eq_refl,
}
use alexandryn.Limits.{IpEntry, Ips, find, put, delete_where}

module _ {L : Type 0} where
  abbrev pub IsMap : Ips L → Type 0
  IsMap [] = Unit
  IsMap ((key, entry) ∷ ips) = (find ips key ≡ none) × IsMap ips

  abbrev pub keep : (IpEntry L → Bool) → Option (IpEntry L) → Option (IpEntry L)
  keep stale none = none
  keep stale (some e) = if stale e then none else some e

  pub find-put_same : (ips : Ips L) (ip : Text) (e : IpEntry L) → find (put ips ip e) ip ≡ some e
  unfolding find put
  find-put_same [] ip e = rw (text_eq_refl ip) refl
  find-put_same ((key, old) ∷ ips) ip e = elim (Bool-cases (text_eq key ip)) [
    | inl y ↦ rw (y, put, find, y) refl
    | inr n ↦ rw (n, put, find, n) (find-put_same ips ip e)
  ]

  pub find-put_other :
      (ips : Ips L) (ip other : Text) (e : IpEntry L)
      → text_eq ip other ≡ false
      → find (put ips ip e) other ≡ find ips other
  unfolding find put
  find-put_other [] ip other e differ = rw differ refl
  find-put_other ((key, old) ∷ ips) ip other e differ = elim (Bool-cases (text_eq key ip)) [
    | inl y ↦
        let same = (text_eq_iff key ip).0 y in
        let off : text_eq key other ≡ false = rw same differ in rw (y, put, find, off) refl
    | inr n ↦ elim (Bool-cases (text_eq key other)) [
      | inl z ↦ rw (n, put, find, z) refl
      | inr z ↦ rw (n, put, find, z) (find-put_other ips ip other e differ)
    ]
  ]

  pub IsMap-put : (ips : Ips L) (ip : Text) (e : IpEntry L) → IsMap ips → IsMap (put ips ip e)
  unfolding find put
  IsMap-put [] ip e m = (refl, tt)
  IsMap-put ((key, old) ∷ ips) ip e (fresh, m) = elim (Bool-cases (text_eq key ip)) [
    | inl y ↦ rw (y, put) (fresh, m)
    | inr n ↦
        let differ : text_eq ip key ≡ false = elim (Bool-cases (text_eq ip key)) [
          | inl z ↦ let same = (text_eq_iff ip key).0 z in cc (rw (same, text_eq_refl key) at n)
          | inr z ↦ z
        ] in
        rw (n, put) (find-put_other ips ip key e differ ∙ fresh, IsMap-put ips ip e m)
  ]

  delete_where-none :
      (stale : IpEntry L → Bool) (ips : Ips L) (ip : Text)
      → find ips ip ≡ none
      → find (delete_where stale ips) ip ≡ none
  unfolding find delete_where
  delete_where-none stale [] ip h = refl
  delete_where-none stale ((key, e) ∷ ips) ip h = elim (Bool-cases (text_eq key ip)) [
    | inl y ↦ cc (rw (y, find) at h)
    | inr n ↦ elim (Bool-cases (stale e)) [
      | inl gone ↦ rw (gone, delete_where) (delete_where-none stale ips ip (rw (n, find) at h))
      | inr kept ↦
          rw (kept, delete_where, find, n) (delete_where-none stale ips ip (rw (n, find) at h))
    ]
  ]

  pub IsMap-delete_where :
      (stale : IpEntry L → Bool) (ips : Ips L) → IsMap ips → IsMap (delete_where stale ips)
  unfolding delete_where
  IsMap-delete_where stale [] m = tt
  IsMap-delete_where stale ((key, e) ∷ ips) (fresh, m) = elim (Bool-cases (stale e)) [
    | inl gone ↦ rw (gone, delete_where) (IsMap-delete_where stale ips m)
    | inr kept ↦
        rw (kept, delete_where)
          (delete_where-none stale ips key fresh, IsMap-delete_where stale ips m)
  ]

  pub find-delete_where :
      (stale : IpEntry L → Bool) (ips : Ips L) (ip : Text)
      → IsMap ips
      → find (delete_where stale ips) ip ≡ keep stale (find ips ip)
  unfolding find delete_where
  find-delete_where stale [] ip m = refl
  find-delete_where stale ((key, e) ∷ ips) ip (fresh, m) = elim (Bool-cases (stale e)) [
    | inl gone ↦ elim (Bool-cases (text_eq key ip)) [
      | inl y ↦
          let same = (text_eq_iff key ip).0 y in
          rw (gone, delete_where, find, y, gone)
            (delete_where-none stale ips ip (subst (λ (k : Text). find ips k ≡ none) same fresh))
      | inr n ↦ rw (gone, delete_where, find, n) (find-delete_where stale ips ip m)
    ]
    | inr kept ↦ elim (Bool-cases (text_eq key ip)) [
      | inl y ↦ rw (kept, delete_where, find, y, kept) refl
      | inr n ↦ rw (kept, delete_where, find, n) (find-delete_where stale ips ip m)
    ]
  ]
