-- ===== src/Jobs/Backoff/Samples.antt =====
-- Delays on concrete settings, in nanoseconds.
use alexandryn.Base.{◌≡◌, refl, pos, negsuc}
use alexandryn.Jobs.Backoff.{double_int64, double_loop, delay_for}

-- Where the cap is 0, which switches it off, doubling wraps around below 0 after enough attempts.
wraps :
    delay_for (record { base = pos 4611686018427387904; max = pos 0 }) (pos 2)
    ≡ negsuc 9223372036854775807
unfolding delay_for double_loop double_int64
wraps = refl
