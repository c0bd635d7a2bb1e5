-- ===== src/Domain/Instant.antt =====
-- Instants (`chrono::DateTime<Utc>`), as the number of nanoseconds from the first midnight that the
-- date library represents.
use mgmtui.Base.{ℕ, suc, ◌+◌, ◌-◌, ◌*◌, ◌/◌, Option, none, some, leb, if◌then◌else◌}
use mgmtui.Base.Int.{ℤ, pos, negsuc, sub_ℕ}

abbrev pub Instant : Type 0
Instant = ℕ

abbrev pub second : ℕ
second = 1_000_000_000

abbrev pub minute : ℕ
minute = 60 * second

abbrev pub day : ℕ
day = 86_400 * second

-- The last instant that the date library represents: 262142-12-31 at its last nanosecond.
abbrev pub last_instant : ℕ
last_instant = (96_465_293 + 95_026_237) * day - 1

-- The seconds before 1970.
abbrev pub epoch : ℕ
epoch = 96_465_293 * 86_400

-- `t + Duration::minutes(m)`, which panics outside the range.
unfoldable pub add_minutes : Instant → ℤ → Option Instant
add_minutes t (pos n) = if leb (t + n * minute) last_instant then some (t + n * minute) else none
add_minutes t (negsuc n) = if leb (suc n * minute) t then some (t - suc n * minute) else none

-- `t - Duration::minutes(m)`
unfoldable pub sub_minutes : Instant → ℤ → Option Instant
sub_minutes t (pos n) = if leb (n * minute) t then some (t - n * minute) else none
sub_minutes t (negsuc n) =
    if leb (t + suc n * minute) last_instant then some (t + suc n * minute) else none

-- `t.timestamp()`
unfoldable pub timestamp : Instant → ℤ
timestamp t = sub_ℕ (t / second) epoch

-- `(a - b).num_minutes()`, towards zero.
unfoldable pub minutes_between : Instant → Instant → ℤ
minutes_between a b = if leb b a then pos ((a - b) / minute) else sub_ℕ 0 ((b - a) / minute)
