-- ===== src/Diagnostics/Ages.antt =====
-- frontend/components/dashboard/diagnostics/connectivity-panel.tsx: what `formatStaleness` says of a
-- time, and how far from it.
use Prim.Native.Nat.{◌*◌}
use group_management_ui_back.Prelude.{ℕ, ◌+◌, ◌≤◌, ◌<◌, ◌≡◌, arith}
use group_management_ui_back.Types.{since}
use group_management_ui_back.Diagnostics.{
  TimeUnit, second, minute, hour, day, unit_size, round_div, Age, just_now, ago, in_unit, age,
}

-- The time that an age stands for, in billionths of a second.
abbrev pub shown : Age → ℕ
shown just_now = 0
shown (ago n u) = n * unit_size u

-- At most this many of a unit are shown.
abbrev pub IsWithin : ℕ → TimeUnit → Type 0
IsWithin k second = k ≤ 60
IsWithin k minute = (1 ≤ k) × (k ≤ 60)
IsWithin k hour = (1 ≤ k) × (k ≤ 24)
IsWithin k day = 1 ≤ k

-- An age is off by half its unit at most.
abbrev pub IsNear : ℕ → Age → Type 0
IsNear n just_now = n ≡ 0
IsNear n (ago k u) =
    (2 * (k * unit_size u) ≤ 2 * n + unit_size u)
    × (2 * n < 2 * (k * unit_size u) + unit_size u)
    × IsWithin k u

-- What is shown of a time that is not before now is off by at most half of its unit, with at most
-- 60 seconds or 1 to 60 minutes or 1 to 24 hours or at least one day; only a time of 0 is "just now".
pub age-IsNear : (n : ℕ) → IsNear n (age (since n))
unfolding age in_unit round_div
age-IsNear n = ground arith

-- A longer time is never shown as a shorter one.
pub age-Monotone : (m n : ℕ) → m ≤ n → shown (age (since m)) ≤ shown (age (since n))
unfolding age in_unit round_div
age-Monotone m n h = ground arith
