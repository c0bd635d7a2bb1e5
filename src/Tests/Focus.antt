-- ===== src/Tests/Focus.antt =====
-- Runs of a focus session that begins at a noon in 2026.
use mgmtui.Base.{◌+◌, ◌*◌, ◌<◌, text, text_eq, none, some, ◌≡◌, ◌≢◌, ◌↔◌, refl, arith}
use mgmtui.Base.Decimal.{digits}
use mgmtui.Domain.Instant.{Instant, minute, second, epoch}
use mgmtui.Service.Focus.{
  Phase, Pomodoro, count_focus, pomodoro, by_pomodoro, initial, standard, is_focus, target,
}
use mgmtui.Service.Focus.Session.{
  Session, start, start_pomodoro, elapsed, remaining, toggle, skip, is_running, is_open,
  phase_label, tick, ends_at,
}
use mgmtui.Service.Focus.Session.Laws.{tick-ends_at}
use mgmtui.Service.Focus.Session.Steps.{here, after, skipped, IsPomodoro, Reach-start}
use mgmtui.Service.Focus.Status.{compute, render, render_pomodoro, clock, pomodoro_snapshot}
use mgmtui.Service.Focus.{break_after, next}

abbrev noon : Instant
noon = (epoch + 1_780_000_000) * second

abbrev session : Session
session = start (by_pomodoro (pomodoro (25 * minute) (5 * minute) (15 * minute) 4)) noon

shown :
    render (compute (some (toggle (start_pomodoro noon) (noon + minute))) none (noon + 9 * minute))
    ≡ text "Focus 24:00 paused"
unfolding render compute render_pomodoro clock pomodoro_snapshot toggle start_pomodoro start
    standard pomodoro initial remaining elapsed target phase_label is_focus is_running is_open
    digits text_eq
shown = refl

runs : session.running_since ≡ some noon
unfolding start
runs = refl

ends : ends_at session ≡ some (some (noon + 25 * minute))
unfolding ends_at start pomodoro initial target
ends = refl

tick-ends_at_example :
    (tick session (noon + 25 * minute) ≡ some (session, none))
    ↔ (noon + 25 * minute < noon + 25 * minute)
tick-ends_at_example =
    tick-ends_at session noon (noon + 25 * minute) (noon + 25 * minute) runs (omega arith) ends

abbrev engine : Pomodoro
engine = pomodoro (25 * minute) (5 * minute) (15 * minute) 4

-- The session in its first break.
abbrev resting : Session
resting = record {
  engine = by_pomodoro (count_focus engine);
  phase = Phase.break (some (5 * minute));
  elapsed_before = 0;
  running_since = some (noon + minute);
}

rests : skip session (noon + minute) ≡ some resting
unfolding skip start next initial pomodoro break_after count_focus
rests = refl

Reach-start_example :
    IsPomodoro (25 * minute) (5 * minute) (15 * minute) 4 1 resting
    × (skip resting (noon + 2 * minute) ≢ none)
unfolding start initial is_focus
Reach-start_example =
    Reach-start (25 * minute) (5 * minute) (15 * minute) 4 noon (noon + 2 * minute) resting
      (after here (skipped session resting (noon + minute) rests))
