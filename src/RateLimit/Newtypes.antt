-- ===== src/RateLimit/Newtypes.antt =====
-- The validated numbers of src/server/rate_limit.rs: `Rpm` and `Burst`.
use monnok_gigastt.Base.{ℕ, ◌≤◌, ◌<◌, ◌≡◌, ◌↔◌, arith, ltb, ◌==◌, if◌then◌else◌}

-- `Result<_, String>` with the two messages of `Rpm::new` and the one of `Burst::new`.
pub data Checked (A : Type 0) : Type 0 where
  ok : A → Checked A
  too_small : Checked A
  too_large : Checked A

pub record Rpm : Type 0 where
  pub rpm : ℕ

pub record Burst : Type 0 where
  pub burst : ℕ

abbrev pub max_rpm : ℕ
max_rpm = 60000

pub rpm_new : ℕ → Checked Rpm
rpm_new n =
    if n == 0 then too_small else if ltb max_rpm n then too_large else ok (record { rpm = n })

pub burst_new : ℕ → Checked Burst
burst_new n = if ltb n 1 then too_small else ok (record { burst = n })

abbrev pub IsRpm : ℕ → Type 0
IsRpm n = (0 < n) × (n ≤ max_rpm)

-- `Rpm::new` accepts exactly the numbers from 1 to `MAX_RPM`, unchanged.
pub rpm_new_iff : (n : ℕ) (r : Rpm) → (rpm_new n ≡ ok r) ↔ (IsRpm n × (r.rpm ≡ n))
unfolding rpm_new
rpm_new_iff n r = ground arith

-- `Burst::new` accepts exactly the positive numbers, unchanged.
pub burst_new_iff : (n : ℕ) (b : Burst) → (burst_new n ≡ ok b) ↔ ((1 ≤ n) × (b.burst ≡ n))
unfolding burst_new
burst_new_iff n b = ground arith
