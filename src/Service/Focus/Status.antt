-- ===== src/Service/Focus/Status.antt =====
-- crates/mgmt-service/src/status.rs: the status line of a session and of the next event. Seconds are
-- below the range of `i64`, since they are those of instants and of durations.
use mgmtui.Base.{
  ℕ, ◌*◌, ◌/◌, ◌%◌, ◌-◌, Text, text, text_eq, ◌==◌, Bool, true, false, ◌&&◌, Option, none, some, [],
  ◌∷◌, ◌++◌, eqb, ltb, if◌then◌else◌,
}
use mgmtui.Base.Int.{ℤ}
use mgmtui.Base.Decimal.{digits}
use mgmtui.Domain.Instant.{Instant, second, timestamp}
use mgmtui.Domain.Event.{Event}
use mgmtui.Service.Focus.Session.{Session, phase_label, is_running, is_open, remaining, elapsed}

-- The field `open` is `open_ended` here.
pub record PomodoroSnapshot : Type 0 where
  pub phase : Text
  pub running : Bool
  pub open_ended : Bool
  pub remaining_secs : Option ℕ
  pub elapsed_secs : ℕ

pub record EventSnapshot : Type 0 where
  pub summary : Text
  pub start : ℤ
  pub all_day : Bool
  pub in_secs : ℕ

pub record StatusSnapshot : Type 0 where
  pub pomodoro : Option PomodoroSnapshot
  pub next_event : Option EventSnapshot

unfoldable pub pomodoro_snapshot : Session → Instant → PomodoroSnapshot
pomodoro_snapshot p now = record {
  phase = phase_label p;
  running = is_running p;
  open_ended = is_open p;
  remaining_secs = elim (remaining p now) [ none ↦ none | some d ↦ some (d / second) ];
  elapsed_secs = elapsed p now / second;
}

-- `(e.start - now).num_seconds().max(0)`
unfoldable pub event_snapshot : Event → Instant → EventSnapshot
event_snapshot e now = record {
  summary = e.summary;
  start = timestamp e.start;
  all_day = e.all_day;
  in_secs = (e.start - now) / second;
}

unfoldable pub compute : Option Session → Option Event → Instant → StatusSnapshot
compute pomo next now = record {
  pomodoro = elim pomo [ none ↦ none | some p ↦ some (pomodoro_snapshot p now) ];
  next_event = elim next [ none ↦ none | some e ↦ some (event_snapshot e now) ];
}

unfoldable pub is_empty : StatusSnapshot → Bool
is_empty s =
    elim s.pomodoro [ none ↦ true | some p ↦ false ]
    && elim s.next_event [ none ↦ true | some e ↦ false ]

-- `{:02}`
abbrev pub padded : ℕ → Text
padded n = if ltb n 10 then b'0' ∷ digits n else digits n

unfoldable pub clock : ℕ → Text
clock s =
    if ltb 0 (s / 3600)
    then digits (s / 3600) ++ text ":" ++ padded (s % 3600 / 60) ++ text ":" ++ padded (s % 60)
    else padded (s % 3600 / 60) ++ text ":" ++ padded (s % 60)

unfoldable pub humanize_in : ℕ → Text
humanize_in secs =
    let mins = secs / 60 in
    if eqb secs 0
    then text "now"
    else if ltb mins 60
    then text "in " ++ digits mins ++ text "m"
    else if ltb mins (60 * 24)
    then if eqb (mins % 60) 0
      then text "in " ++ digits (mins / 60) ++ text "h"
      else text "in " ++ digits (mins / 60) ++ text "h" ++ padded (mins % 60) ++ text "m"
    else text "in " ++ digits (mins / (60 * 24)) ++ text "d"

unfoldable pub render_event : EventSnapshot → Text
render_event e =
    if e.all_day
    then e.summary ++ text " (all day)"
    else e.summary ++ text " " ++ humanize_in e.in_secs

abbrev pub shown_secs : PomodoroSnapshot → ℕ
shown_secs p =
    if p.open_ended then p.elapsed_secs else elim p.remaining_secs [ none ↦ 0 | some r ↦ r ]

unfoldable pub render_pomodoro : PomodoroSnapshot → Text
render_pomodoro p =
    (if p.phase == text "focus" then text "Focus" else text "Break")
    ++ text " "
    ++ clock (shown_secs p)
    ++ (if p.running then [] else text " paused")

unfoldable pub render : StatusSnapshot → Text
render s = elim s.pomodoro [
  | none ↦ elim s.next_event [ none ↦ [] | some e ↦ render_event e ]
  | some p ↦ elim s.next_event [
    | none ↦ render_pomodoro p
    | some e ↦ render_pomodoro p ++ text " · " ++ render_event e
  ]
]
