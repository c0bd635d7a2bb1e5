-- ===== src/Service/Focus/Session.antt =====
-- crates/mgmt-service/src/status.rs: a focus session (`PomodoroState`) and what a status bar shows of it.
-- An instant out of the range of the date library is a panic, the outer `none`. The overflow of a sum of
-- durations, beyond 2^64 seconds, is not modelled.
pub mod Laws
pub mod Steps
use mgmtui.Base.{
  ℕ, suc, ◌+◌, ◌-◌, ◌*◌, ◌/◌, ◌%◌, ◌^◌, max, Text, text, Bool, true, false, ◌&&◌, not, Option, none,
  some, List, [], ◌∷◌, ◌++◌, eqb, leb, ltb, if◌then◌else◌,
}
use mgmtui.Base.Int.{ℤ, pos, negsuc}
use mgmtui.Domain.Instant.{Instant, second, last_instant, timestamp}
use mgmtui.Domain.Event.{Event}
use mgmtui.Service.Focus.{
  Phase, is_focus, target, Pomodoro, standard, Flowtime, flowtime, Engine, by_pomodoro, by_flowtime,
  initial, next,
}

pub record Session : Type 0 where
  pub engine : Engine
  pub phase : Phase
  pub elapsed_before : ℕ
  pub running_since : Option Instant

unfoldable pub start : Engine → Instant → Session
start engine now = record {
  engine = engine;
  phase = initial engine;
  elapsed_before = 0;
  running_since = some now;
}

unfoldable pub start_pomodoro : Instant → Session
start_pomodoro now = start (by_pomodoro standard) now

unfoldable pub start_flowtime : Instant → Session
start_flowtime now = start (by_flowtime (flowtime 5)) now

unfoldable pub is_running : Session → Bool
is_running s = elim s.running_since [ none ↦ false | some since ↦ true ]

-- An open-ended phase has no target.
unfoldable pub is_open : Session → Bool
is_open s = elim (target s.phase) [ none ↦ true | some t ↦ false ]

unfoldable pub phase_label : Session → Text
phase_label s = if is_focus s.phase then text "focus" else text "break"

-- `(now - since).to_std().unwrap_or(Duration::ZERO)`: nothing, if the clock went back.
abbrev pub live : Option Instant → Instant → ℕ
live none now = 0
live (some since) now = now - since

unfoldable pub elapsed : Session → Instant → ℕ
elapsed s now = s.elapsed_before + live s.running_since now

unfoldable pub remaining : Session → Instant → Option ℕ
remaining s now = elim (target s.phase) [ none ↦ none | some t ↦ some (t - elapsed s now) ]

unfoldable pub toggle : Session → Instant → Session
toggle s now = elim s.running_since [
  | some since ↦ record s {
    elapsed_before = s.elapsed_before + live (some since) now;
    running_since = none;
  }
  | none ↦ record s { running_since = some now }
]

abbrev pub restarted : Option Instant → Instant → Option Instant
restarted none now = none
restarted (some since) now = some now

unfoldable pub skip : Session → Instant → Option Session
skip s now = elim (next s.engine s.phase (elapsed s now)) [
  | none ↦ none
  | some (phase, engine) ↦ some (record {
    engine = engine;
    phase = phase;
    elapsed_before = 0;
    running_since = restarted s.running_since now;
  })
]

-- Whether a running phase with a target has run out.
unfoldable pub is_over : Session → Instant → Bool
is_over s now = is_running s && elim (remaining s now) [ none ↦ false | some r ↦ eqb r 0 ]

unfoldable pub tick : Session → Instant → Option (Session × Option Phase)
tick s now =
    if is_over s now
    then elim (skip s now) [ none ↦ none | some s' ↦ some (s', some s'.phase) ]
    else some (s, none)

-- The longest span of the date library: `i64::MAX` milliseconds.
abbrev pub longest_span : ℕ
longest_span = (2 ^ 63 - 1) * 1_000_000

unfoldable pub ends_at : Session → Option (Option Instant)
ends_at s = elim s.running_since [
  | none ↦ some none
  | some since ↦ elim (target s.phase) [
    | none ↦ some none
    | some t ↦
        let left = t - s.elapsed_before in
        if ltb longest_span left
        then some none
        else if leb (since + left) last_instant
        then some (some (since + left))
        else none
  ]
]

unfoldable pub count_from : Session → Option (Option Instant)
count_from s = elim s.running_since [
  | none ↦ some none
  | some since ↦ elim (target s.phase) [
    | some t ↦ some none
    | none ↦
        let before = if ltb longest_span s.elapsed_before then 0 else s.elapsed_before in
        if leb before since then some (some (since - before)) else none
  ]
]
