-- ===== src/Limits/Refinement.antt =====
-- The map of limiters against one limiter for each network, and what the eviction changes.
use alexandryn.Base.{
  ℕ, ◌+◌, ◌≤◌, ◌<◌, ◌≡◌, refl, sym, ap, ◌∙◌, inl, inr, Bool, Option, none, some, List, [], ◌∷◌,
  arith, ltb, if◌then◌else◌, ltb→lt, Bool-cases, Option-cases, Text, text_eq, text_eq_iff,
}
use alexandryn.Limits.{
  Bucket, IpEntry, Ips, find, put, allow, cleanup, Call, request, tick, answers,
}
use alexandryn.Limits.Maps.{
  IsMap, keep, find-put_same, find-put_other, IsMap-put, IsMap-delete_where, find-delete_where,
}

module _ {L : Type 0} (bucket : Bucket L) (ttl : ℕ) (ip : Text) where
  -- The specification: the limiter of one network alone, kept for ever, or none yet. The requests of
  -- other networks and the eviction do not exist for it.
  limiter_of : Option L → L
  limiter_of none = bucket.new_limiter
  limiter_of (some l) = l

  unfoldable pub lone_answers : Option L → List Call → List Bool
  unfolding limiter_of
  lone_answers o [] = []
  lone_answers o (request other now ∷ calls) =
      let (l, answer) = bucket.allow (limiter_of o) now in
      let mine = lone_answers (some l) calls in
      let rest = lone_answers o calls in if text_eq other ip then answer ∷ mine else rest
  lone_answers o (tick now ∷ calls) = lone_answers o calls

  -- The instants do not go back.
  abbrev Sorted : ℕ → List Call → Type 0
  Sorted since [] = Unit
  Sorted since (request other now ∷ calls) = (since ≤ now) × Sorted now calls
  Sorted since (tick now ∷ calls) = (since ≤ now) × Sorted now calls

  -- What the limiter package guarantees of one rate and burst: a limiter that was not used for longer
  -- than `ttl` answers as a new one does.
  pub record IsResting : Type 1 where
    pub UsedBy : L → ℕ → Type 0
    pub used :
        (l : L) (seen now : ℕ) → UsedBy l seen → seen ≤ now → UsedBy (bucket.allow l now).0 now
    pub used_first : (now : ℕ) → UsedBy (bucket.allow bucket.new_limiter now).0 now
    pub rested :
        (l : L) (seen now : ℕ)
        → UsedBy l seen
        → seen + ttl < now
        → bucket.allow l now ≡ bucket.allow bucket.new_limiter now

module _ {L : Type 0} (bucket : Bucket L) (ttl : ℕ) (ip : Text) where
  -- What is known of the entry of the network at the time `since`: nothing is kept of it, or the
  -- limiter itself; or it was evicted, and a new one answers alike from now on.
  abbrev Agrees : IsResting bucket ttl ip → ℕ → Option (IpEntry L) → Option L → Type 0
  Agrees law since none none = Unit
  Agrees law since none (some l) = (seen : ℕ) × law.UsedBy l seen × (seen + ttl < since)
  Agrees law since (some e) none = ⊥
  Agrees law since (some e) (some l) =
      (e.limiter ≡ l) × law.UsedBy l e.last_seen × (e.last_seen ≤ since)

  Agrees-later :
      (law : IsResting bucket ttl ip) (since now : ℕ) (o : Option (IpEntry L)) (q : Option L)
      → since ≤ now
      → Agrees law since o q
      → Agrees law now o q
  Agrees-later law since now none none le a = tt
  Agrees-later law since now none (some l) le (seen, u, lt) = (seen, u, omega arith)
  Agrees-later law since now (some e) none le a = a
  Agrees-later law since now (some e) (some l) le (same, u, before) = (same, u, omega arith)

  -- The eviction at an instant.
  Agrees-keep :
      (law : IsResting bucket ttl ip) (now : ℕ) (o : Option (IpEntry L)) (q : Option L)
      → Agrees law now o q
      → Agrees law now (keep (λ entry. ltb (entry.last_seen + ttl) now) o) q
  Agrees-keep law now none q a = a
  Agrees-keep law now (some e) none a = absurd a
  Agrees-keep law now (some e) (some l) (same, u, before) =
      elim (Bool-cases (ltb (e.last_seen + ttl) now)) [
        | inl stale ↦ rw stale (e.last_seen, u, ltb→lt _ _ stale)
        | inr kept ↦ rw kept (same, u, before)
      ]

  -- The limiter that Allow asks answers as the lone one does.
  abbrev asked : Option (IpEntry L) → L
  asked none = bucket.new_limiter
  asked (some e) = e.limiter

  same_answer :
      (law : IsResting bucket ttl ip) (now : ℕ) (o : Option (IpEntry L)) (q : Option L)
      → Agrees law now o q
      → bucket.allow (asked o) now ≡ bucket.allow (limiter_of bucket ttl ip q) now
  unfolding limiter_of
  same_answer law now none none a = refl
  same_answer law now none (some l) (seen, u, lt) = sym (law.rested l seen now u lt)
  same_answer law now (some e) none a = absurd a
  same_answer law now (some e) (some l) (same, u, before) = ap (λ x. bucket.allow x now) same

  used_after :
      (law : IsResting bucket ttl ip) (now : ℕ) (o : Option (IpEntry L)) (q : Option L)
      → Agrees law now o q
      → law.UsedBy (bucket.allow (limiter_of bucket ttl ip q) now).0 now
  unfolding limiter_of
  used_after law now o none a = law.used_first now
  used_after law now none (some l) (seen, u, lt) = law.used l seen now u (omega arith)
  used_after law now (some e) (some l) (same, u, before) = law.used l e.last_seen now u before

  allow-asked :
      (ips : Ips L) (other : Text) (now : ℕ)
      → allow bucket ips other now ≡ (
        put ips other
            (record { limiter = (bucket.allow (asked (find ips other)) now).0; last_seen = now }),
        (bucket.allow (asked (find ips other)) now).1,
      )
  unfolding allow
  allow-asked ips other now = elim (Option-cases (find ips other)) [
    | inl e ↦ rw (e, allow) refl
    | inr (entry, e) ↦ rw (e, allow) refl
  ]

  agree :
      (law : IsResting bucket ttl ip) (since : ℕ) (ips : Ips L) (q : Option L) (calls : List Call)
      → IsMap ips
      → Agrees law since (find ips ip) q
      → Sorted bucket ttl ip since calls
      → answers bucket ttl ip ips calls ≡ lone_answers bucket ttl ip q calls
  unfolding answers lone_answers cleanup
  agree law since ips q [] m a s = refl
  agree law since ips q (tick now ∷ calls) m a (le, s) =
      agree law now (cleanup bucket ips ttl now) q calls (IsMap-delete_where _ ips m)
        (rw (find-delete_where (λ entry. ltb (entry.last_seen + ttl) now) ips ip m)
          (Agrees-keep law now (find ips ip) q (Agrees-later law since now (find ips ip) q le a)))
        s
  agree law since ips q (request other now ∷ calls) m a (le, s) =
      elim (Bool-cases (text_eq other ip)) [
        | inl y ↦
            let same : other ≡ ip = (text_eq_iff other ip).0 y in
            let x = bucket.allow (limiter_of bucket ttl ip q) now in
            let now_agrees = Agrees-later law since now (find ips ip) q le a in
            let alike : bucket.allow (asked (find ips other)) now ≡ x =
              ap (λ k. bucket.allow (asked (find ips k)) now) same
              ∙ same_answer law now (find ips ip) q now_agrees in
            let entry : IpEntry L = record { limiter = x.0; last_seen = now } in
            let there : find (put ips other entry) ip ≡ some entry =
              ap (find (put ips other entry)) (sym same) ∙ find-put_same ips other entry in
            rw (y, allow-asked ips other now, alike)
              (ap (λ rest. x.1 ∷ rest)
                (agree law now (put ips other entry) (some x.0) calls (IsMap-put ips other entry m)
                  (rw there (refl, used_after law now (find ips ip) q now_agrees, omega arith)) s))
        | inr n ↦
            let entry : IpEntry L = record {
              limiter = (bucket.allow (asked (find ips other)) now).0;
              last_seen = now;
            } in
            rw (n, allow-asked ips other now)
              (agree law now (put ips other entry) q calls (IsMap-put ips other entry m)
                (rw (find-put_other ips other ip entry n)
                  (Agrees-later law since now (find ips ip) q le a))
                s)
      ]

  -- The answers to one network's requests are those of a limiter of its own that is never evicted,
  -- whatever other networks ask in between and however often the eviction runs: the shared map with
  -- its eviction implements one lasting limiter for each network. The instants do not go back, and a
  -- limiter that rested for longer than the time to live is as good as new.
  pub answers-lone_answers :
      IsResting bucket ttl ip
      → (calls : List Call) → Sorted bucket ttl ip 0 calls
      → answers bucket ttl ip [] calls ≡ lone_answers bucket ttl ip none calls
  unfolding find
  answers-lone_answers law calls s = agree law 0 [] none calls tt tt s
