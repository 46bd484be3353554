-- ===== src/Subsessions/Schedule.antt =====
-- src/robotsix_chat/subsessions/schedule.py, and `_anchored_next_run_at` of worker_periodic.py. The time-zone
-- database and Python's `int` on a text are inputs. Instants and intervals are natural numbers of
-- seconds. The loops take fuel.
pub mod Anchored
use Prim.Native.Char.{code}
use Prim.Native.String
use robotsix_chat.Base.{
  ℕ, zero, suc, ◌+◌, ◌-◌, ◌*◌, ◌/◌, ◌%◌, String, Bool, true, false, ◌&&◌, Option, none, some, List,
  [], ◌∷◌, leb, ◌==◌, str_eq, if◌then◌else◌,
}
use robotsix_chat.Chat.Titles.{split_words}
use robotsix_chat.Subsessions.Model.{SubsessionInfo, ℤ, pos, negsuc}

abbrev pub seconds_per_day : ℕ
seconds_per_day = 86400

pub record ParsedAnchor : Type 0 where
  pub hour : ℕ
  pub minute : ℕ
  pub second : ℕ
  pub tz : String

-- What is read from outside: `int` on a text, the known zones, the local day of an instant in a zone, and
-- the instant of an anchor on a local day of its zone.
pub record Zones : Type 0 where
  pub int_of : String → Option ℤ
  pub is_zone : String → Bool
  pub day_of : String → ℕ → ℕ
  pub instant : ParsedAnchor → ℕ → ℕ

abbrev pub colon : ℕ
colon = 58

-- `s.split(":")`, with the field that is being read.
unfoldable pub split_fields : String → String → List String
split_fields read String.[] = read ∷ []
split_fields read (String.◌∷◌ c s) =
    let here = code c == colon in
    let rest = split_fields (if here then "" else String.◌++◌ read (String.◌∷◌ c String.[])) s in
    if here then read ∷ rest else rest

-- The range tests and the zone test, on fields that are numbers.
abbrev pub anchor_of : Zones → String → Option ℤ → Option ℤ → Option ℤ → Option ParsedAnchor
anchor_of z tz (some (pos h)) (some (pos m)) (some (pos s)) =
    if leb h 23 && leb m 59 && leb s 59 && z.is_zone tz
    then some (record { hour = h; minute = m; second = s; tz = tz })
    else none
anchor_of z tz _ _ _ = none

abbrev pub parse_time : Zones → String → List String → Option ParsedAnchor
parse_time z tz (h ∷ m ∷ []) = anchor_of z tz (z.int_of h) (z.int_of m) (some (pos 0))
parse_time z tz (h ∷ m ∷ s ∷ []) = anchor_of z tz (z.int_of h) (z.int_of m) (z.int_of s)
parse_time z tz _ = none

abbrev pub parse_parts : Zones → String → List String → Option ParsedAnchor
parse_parts z default_tz (time ∷ []) = parse_time z default_tz (split_fields "" time)
parse_parts z default_tz (time ∷ tz ∷ []) = parse_time z tz (split_fields "" time)
parse_parts z default_tz _ = none

-- `none` is SubsessionAnchorError.
unfoldable pub parse_anchor_time : Zones → String → String → Option ParsedAnchor
parse_anchor_time z default_tz anchor = parse_parts z default_tz (split_words "" anchor)

-- The next run, an exception, or the end of the fuel.
pub data Fire : Type 0 where
  fires : ℕ → Fire
  anchor_error zero_division unfinished : Fire

abbrev pub is_whole_day : ℕ → Bool
is_whole_day interval = leb seconds_per_day interval && (interval % seconds_per_day == 0)

-- `while candidate.timestamp() <= now_epoch`
unfoldable pub next_day : ℕ → Zones → ParsedAnchor → ℕ → ℕ → ℕ → Fire
next_day zero z p now step day = unfinished
next_day (suc fuel) z p now step day =
    let rest = next_day fuel z p now step (day + step) in
    if leb (z.instant p day) now then rest else fires (z.instant p day)

-- `while nxt <= now_epoch`
unfoldable pub next_aligned : ℕ → ℕ → ℕ → ℕ → Fire
next_aligned zero now interval nxt = unfinished
next_aligned (suc fuel) now interval nxt =
    let rest = next_aligned fuel now interval (nxt + interval) in
    if leb nxt now then rest else fires nxt

-- `base + math.ceil((now_epoch - base) / interval_seconds) * interval_seconds`
abbrev pub aligned_from : ℕ → ℕ → ℕ → ℕ
aligned_from now interval base =
    if leb base now
    then base + (now - base + (interval - 1)) / interval * interval
    else base - (base - now) / interval * interval

abbrev pub loop_fuel : ℕ
loop_fuel = 2

abbrev pub next_fire : Zones → ℕ → ℕ → ParsedAnchor → Fire
next_fire z now interval p =
    let today = z.day_of p.tz now in
    if is_whole_day interval
    then next_day loop_fuel z p now (interval / seconds_per_day) today
    else if interval == 0
    then zero_division
    else next_aligned loop_fuel now interval (aligned_from now interval (z.instant p today))

unfoldable pub next_anchored_run_at : Zones → String → ℕ → ℕ → String → Fire
unfolding next_day next_aligned
next_anchored_run_at z default_tz now interval anchor =
    elim (parse_anchor_time z default_tz anchor) [
      | none ↦ anchor_error
      | some p ↦ next_fire z now interval p
    ]

-- `info.interval_seconds or 60.0`
abbrev pub interval_or_60 : Option ℕ → ℕ
interval_or_60 none = 60
interval_or_60 (some zero) = 60
interval_or_60 (some (suc n)) = suc n

abbrev pub or_relative : ℕ → Fire → Fire
or_relative at anchor_error = fires at
or_relative at f = f

-- `_anchored_next_run_at`
unfoldable pub anchored_next_run_at : Zones → ℕ → SubsessionInfo → Fire
anchored_next_run_at z now i =
    let interval = interval_or_60 i.interval_seconds in
    elim i.anchor_time [
      | none ↦ fires (now + interval)
      | some anchor ↦
          if str_eq anchor ""
          then fires (now + interval)
          else or_relative (now + interval) (next_anchored_run_at z "UTC" now interval anchor)
    ]
