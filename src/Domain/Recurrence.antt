-- ===== src/Domain/Recurrence.antt =====
-- crates/mgmt-domain/src/recurrence.rs: recurrence rules and the weekday tokens.
use native.Mathlib.Decide.{ℕ_discrete}
use mgmtui.Base.{Eq, ℕ, max, Text, text, text_eq, ◌==◌, Option, none, some, List, [], if◌then◌else◌}
use mgmtui.Base.Int.{ℤ}
use mgmtui.Domain.Instant.{Instant}

pub data Frequency : Type 0 where
  daily weekly monthly yearly : Frequency

pub data Weekday : Type 0 where
  mon tue wed thu fri sat sun : Weekday

unfoldable pub ical_token : Weekday → Text
ical_token mon = text "MO"
ical_token tue = text "TU"
ical_token wed = text "WE"
ical_token thu = text "TH"
ical_token fri = text "FR"
ical_token sat = text "SA"
ical_token sun = text "SU"

unfoldable pub from_ical_token : Text → Option Weekday
from_ical_token s =
    if s == text "MO"
    then some mon
    else if s == text "TU"
    then some tue
    else if s == text "WE"
    then some wed
    else if s == text "TH"
    then some thu
    else if s == text "FR"
    then some fri
    else if s == text "SA"
    then some sat
    else if s == text "SU"
    then some sun
    else none

pub record ByDay : Type 0 where
  pub weekday : Weekday
  pub ordinal : Option ℤ

pub record RecurrenceRule : Type 0 where
  pub freq : Frequency
  pub interval : ℕ
  pub count : Option ℕ
  pub until : Option Instant
  pub by_weekday : List ByDay
  pub by_monthday : List ℤ
  pub by_month : List ℕ
  pub by_setpos : List ℤ
  pub wkst : Weekday
  pub extra : List (Text × Text)

pub RecurrenceRule-discrete : Discrete RecurrenceRule
RecurrenceRule-discrete = hlevel ℕ_discrete

-- The derived equality of rules.
instance unfoldable pub rule_eq : Eq RecurrenceRule
rule_eq = record { dec = RecurrenceRule-discrete }

unfoldable pub every : Frequency → ℕ → RecurrenceRule
every freq interval = record {
  freq = freq;
  interval = max interval 1;
  count = none;
  until = none;
  by_weekday = [];
  by_monthday = [];
  by_month = [];
  by_setpos = [];
  wkst = mon;
  extra = [];
}
