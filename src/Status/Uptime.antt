-- ===== src/Status/Uptime.antt =====
-- Daily uptime of a public status page: backend/app/services/status.py. A date is its ordinal. A
-- percentage is kept as its fraction, active probes of all probes, without the rounding of the floats.
use forjd.Prelude.{
  ℕ, zero, suc, ◌+◌, ◌-◌, min, String, Bool, true, not, Option, none, some, List, [], ◌∷◌, leb,
  string_eq, nat_eq, ◌==◌, if◌then◌else◌,
}

-- A row of `_probe_day_rollups`: the probes of a service on a day, with NULL counted as 0.
pub record ProbeRow : Type 0 where
  pub service_id : String
  pub day : ℕ
  pub active : ℕ
  pub total : ℕ

-- The dictionary of days, in the order of insertion.
abbrev pub DayStats : Type 0
DayStats = List (ℕ × (ℕ × ℕ))

-- `merged.get(day, (0, 0))`
unfoldable pub stats_of : ℕ → DayStats → ℕ × ℕ
stats_of day [] = (0, 0)
stats_of day ((d, counts) ∷ rest) = if d == day then counts else stats_of day rest

-- `merged[day] = counts`
unfoldable pub set_stats : ℕ → ℕ × ℕ → DayStats → DayStats
set_stats day counts [] = (day, counts) ∷ []
set_stats day counts ((d, old) ∷ rest) =
    let others = set_stats day counts rest in
    if d == day then (d, counts) ∷ rest else (d, old) ∷ others

abbrev pub is_of_service : Option String → ProbeRow → Bool
is_of_service none row = true
is_of_service (some service_id) row = row.service_id == service_id

abbrev pub add_row : Option String → DayStats → ProbeRow → DayStats
add_row service_id merged row =
    if not (is_of_service service_id row)
    then merged
    else set_stats row.day
        ((stats_of row.day merged).0 + row.active, (stats_of row.day merged).1 + row.total) merged

unfoldable pub merge_into : Option String → DayStats → List ProbeRow → DayStats
unfolding stats_of set_stats
merge_into service_id merged [] = merged
merge_into service_id merged (row ∷ rest) =
    merge_into service_id (add_row service_id merged row) rest

-- `_merge_day_stats`
unfoldable pub merge_day_stats : List ProbeRow → Option String → DayStats
unfolding merge_into
merge_day_stats rows service_id = merge_into service_id [] rows

pub data DayStatus : Type 0 where
  no_data up down partial : DayStatus

-- `_day_status`, with the uptime as its fraction.
unfoldable pub day_status : ℕ × ℕ → DayStatus × Option (ℕ × ℕ)
day_status (active, total) =
    if leb total 0
    then (no_data, none)
    else if active == total
    then (up, some (active, total))
    else if active == 0
    then (down, some (active, total))
    else (partial, some (active, total))

-- A daily point of a history.
pub record Point : Type 0 where
  pub date : ℕ
  pub status : DayStatus
  pub uptime : Option (ℕ × ℕ)

abbrev pub point_of : DayStats → ℕ → Point
point_of stats day = record {
  date = day;
  status = (day_status (stats_of day stats)).0;
  uptime = (day_status (stats_of day stats)).1;
}

-- `_fill_uptime_history`: from `days - 1` days before the last one up to it.
unfoldable pub fill_uptime_history : DayStats → ℕ → ℕ → List Point
fill_uptime_history stats zero end = []
fill_uptime_history stats (suc days) end =
    point_of stats (end - days) ∷ fill_uptime_history stats days end

unfoldable pub sum_active : DayStats → ℕ
sum_active [] = 0
sum_active ((d, counts) ∷ rest) = counts.0 + sum_active rest

unfoldable pub sum_total : DayStats → ℕ
sum_total [] = 0
sum_total ((d, counts) ∷ rest) = counts.1 + sum_total rest

-- `_uptime_from_day_stats`
unfoldable pub uptime_from_day_stats : DayStats → Option (ℕ × ℕ)
unfolding sum_active sum_total
uptime_from_day_stats stats =
    if leb (sum_total stats) 0
    then none
    else some (min (sum_active stats) (sum_total stats), sum_total stats)
