-- ===== src/Service/Focus.antt =====
-- crates/mgmt-service/src/time.rs: the techniques of a focus session. A `std::time::Duration` is its
-- nanoseconds. A division by zero panics, `none`. The count of focuses is a `u32` that wraps around in a
-- release build.
pub mod Session
pub mod Status
use mgmtui.Base.{
  ℕ, suc, ◌+◌, ◌*◌, ◌/◌, ◌%◌, ◌^◌, max, Bool, true, false, Option, none, some, eqb, if◌then◌else◌,
}
use mgmtui.Domain.Instant.{second}

-- Each phase with its planned length.
pub data Phase : Type 0 where
  focus : Option ℕ → Phase
  break : Option ℕ → Phase

unfoldable pub is_focus : Phase → Bool
is_focus (Phase.focus t) = true
is_focus (Phase.break t) = false

unfoldable pub target : Phase → Option ℕ
target (Phase.focus t) = t
target (Phase.break t) = t

pub record Pomodoro : Type 0 where
  pub focus_length : ℕ
  pub short_break : ℕ
  pub long_break : ℕ
  pub focuses_before_long_break : ℕ
  pub completed_focuses : ℕ

-- `Pomodoro::new` and `Pomodoro::standard`
unfoldable pub pomodoro : ℕ → ℕ → ℕ → ℕ → Pomodoro
pomodoro length short long every = record {
  focus_length = length;
  short_break = short;
  long_break = long;
  focuses_before_long_break = max every 1;
  completed_focuses = 0;
}

unfoldable pub standard : Pomodoro
standard = pomodoro (25 * 60 * second) (5 * 60 * second) (15 * 60 * second) 4

-- A flowtime is its divisor; `Flowtime::new` is `flowtime`.
abbrev pub Flowtime : Type 0
Flowtime = ℕ

unfoldable pub flowtime : ℕ → Flowtime
flowtime divisor = max divisor 1

pub data Engine : Type 0 where
  by_pomodoro : Pomodoro → Engine
  by_flowtime : Flowtime → Engine

unfoldable pub initial : Engine → Phase
initial (by_pomodoro p) = Phase.focus (some p.focus_length)
initial (by_flowtime d) = Phase.focus none

-- The break after a focus, by the count that includes it.
unfoldable pub break_after : Pomodoro → Phase
break_after p =
    if eqb (p.completed_focuses % p.focuses_before_long_break) 0
    then Phase.break (some p.long_break)
    else Phase.break (some p.short_break)

unfoldable pub count_focus : Pomodoro → Pomodoro
count_focus p = record p { completed_focuses = suc p.completed_focuses % 2 ^ 32 }

unfoldable pub next : Engine → Phase → ℕ → Option (Phase × Engine)
next (by_pomodoro p) (Phase.focus t) elapsed =
    if eqb p.focuses_before_long_break 0
    then none
    else some (break_after (count_focus p), by_pomodoro (count_focus p))
next (by_pomodoro p) (Phase.break t) elapsed =
    some (Phase.focus (some p.focus_length), by_pomodoro p)
next (by_flowtime d) (Phase.focus t) elapsed =
    if eqb d 0 then none else some (Phase.break (some (elapsed / d)), by_flowtime d)
next (by_flowtime d) (Phase.break t) elapsed = some (Phase.focus none, by_flowtime d)
