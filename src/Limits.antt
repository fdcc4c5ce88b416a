-- ===== src/Limits.antt =====
-- internal/auth/ratelimit.go: a token-bucket limiter for each client network, and
-- internal/adapters/sources/concurrency.go: the cap on outbound requests. rate.Limiter is a parameter:
-- a state, and Allow as a function of the time; a map is an association list whose newest entry counts.
-- Times are the instants that time.Now gives.
mod Maps
pub mod Refinement
pub mod Semaphore
mod Samples
use alexandryn.Base.{
  ℕ, ◌+◌, ◌/◌, Bool, Option, none, some, List, [], ◌∷◌, ltb, if◌then◌else◌, Text, text_eq,
}

-- What golang.org/x/time/rate provides for one rate and burst.
pub record Bucket (L : Type 0) : Type 0 where
  pub new_limiter : L
  pub allow : L → ℕ → L × Bool

pub record IpEntry (L : Type 0) : Type 0 where
  pub limiter : L
  pub last_seen : ℕ

abbrev pub Ips : Type 0 → Type 0
Ips L = List (Text × IpEntry L)

module _ {L : Type 0} where
  unfoldable pub find : Ips L → Text → Option (IpEntry L)
  find [] ip = none
  find ((key, entry) ∷ ips) ip = if text_eq key ip then some entry else find ips ip

  unfoldable pub put : Ips L → Text → IpEntry L → Ips L
  put [] ip entry = (ip, entry) ∷ []
  put ((key, old) ∷ ips) ip entry =
      let rest = put ips ip entry in
      if text_eq key ip then (key, entry) ∷ ips else (key, old) ∷ rest

  unfoldable pub delete_where : (IpEntry L → Bool) → Ips L → Ips L
  delete_where stale [] = []
  delete_where stale ((key, entry) ∷ ips) =
      let rest = delete_where stale ips in if stale entry then rest else (key, entry) ∷ rest

module _ {L : Type 0} (bucket : Bucket L) where
  -- Allow at the instant `now`: a first-seen network gets a limiter of its own.
  unfoldable pub allow : Ips L → Text → ℕ → Ips L × Bool
  unfolding find put
  allow ips ip now = elim (find ips ip) [
    | none ↦
        let (limiter, answer) = bucket.allow bucket.new_limiter now in
        (put ips ip (record { limiter = limiter; last_seen = now }), answer)
    | some entry ↦
        let (limiter, answer) = bucket.allow entry.limiter now in
        (put ips ip (record { limiter = limiter; last_seen = now }), answer)
  ]

  -- Cleanup; the test of a time that lies before the last visit is false, as of a negative duration.
  unfoldable pub cleanup : Ips L → ℕ → ℕ → Ips L
  unfolding delete_where
  cleanup ips ttl now = delete_where (λ entry. ltb (entry.last_seen + ttl) now) ips

-- The interval of StartEviction's ticker, in nanoseconds.
abbrev minute : ℕ
minute = 60000000000

eviction_interval : ℕ → ℕ
eviction_interval ttl = if ltb (ttl / 2) minute then minute else ttl / 2

-- What the limiter is asked: a request at an instant, or a tick of the eviction.
pub data Call : Type 0 where
  request : Text → ℕ → Call
  tick : ℕ → Call

module _ {L : Type 0} (bucket : Bucket L) (ttl : ℕ) where
  -- The calls in the order of the mutex, and the answers to the requests of one network.
  unfoldable pub answers : Text → Ips L → List Call → List Bool
  unfolding allow cleanup
  answers ip ips [] = []
  answers ip ips (request other now ∷ calls) =
      let (later, answer) = allow bucket ips other now in
      let rest = answers ip later calls in if text_eq other ip then answer ∷ rest else rest
  answers ip ips (tick now ∷ calls) = answers ip (cleanup bucket ips ttl now) calls
