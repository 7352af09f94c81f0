-- ===== src/Status/Merged.antt =====
-- The merged days against the sums of the probes.
use forjd.Prelude.{
  ℕ, zero, suc, ◌+◌, ◌-◌, String, ◌≡◌, refl, ap, ap₂, ◌∙◌, inl, inr, Bool, ◌&&◌, Option, List, [],
  ◌∷◌, arith, string_eq, same_number_iff, nat_eq, ◌==◌, if◌then◌else◌, Bool-cases,
}
use forjd.Status.Uptime.{
  ProbeRow, DayStats, stats_of, set_stats, is_of_service, add_row, merge_into, merge_day_stats,
  day_status, Point, fill_uptime_history,
}

abbrev counted : Option String → ℕ → ProbeRow → Bool
counted service_id day row = is_of_service service_id row && row.day == day

-- What the probes of a service on a day sum up to, read off the rows.
pub active_on : Option String → ℕ → List ProbeRow → ℕ
active_on service_id day [] = 0
active_on service_id day (row ∷ rest) =
    (if counted service_id day row then row.active else 0) + active_on service_id day rest

pub total_on : Option String → ℕ → List ProbeRow → ℕ
total_on service_id day [] = 0
total_on service_id day (row ∷ rest) =
    (if counted service_id day row then row.total else 0) + total_on service_id day rest

stats_of-set_stats :
    (day other : ℕ) (counts : ℕ × ℕ) (merged : DayStats)
    → stats_of other (set_stats day counts merged)
      ≡ (if day == other then counts else stats_of other merged)
unfolding stats_of set_stats
stats_of-set_stats day other counts [] = refl
stats_of-set_stats day other counts ((d, old) ∷ rest) =
    ground (arith, stats_of-set_stats day other counts rest)

nothing_added : (counts : ℕ × ℕ) → counts ≡ (counts.0 + 0, counts.1 + 0)
nothing_added (a, t) = ap₂ (λ (x y : ℕ). (x, y)) (omega arith) (omega arith)

abbrev summed : ProbeRow → DayStats → ℕ → ℕ × ℕ
summed row merged d = ((stats_of d merged).0 + row.active, (stats_of d merged).1 + row.total)

stats_of-add_row :
    (service_id : Option String) (day : ℕ) (merged : DayStats) (row : ProbeRow)
    → stats_of day (add_row service_id merged row) ≡ (
      (stats_of day merged).0 + (if counted service_id day row then row.active else 0),
      (stats_of day merged).1 + (if counted service_id day row then row.total else 0),
    )
stats_of-add_row service_id day merged row = elim (Bool-cases (is_of_service service_id row)) [
  | inr e ↦ rw e (nothing_added (stats_of day merged))
  | inl e ↦ elim (Bool-cases (row.day == day)) [
    | inl same ↦
        rw (e, same)
          (stats_of-set_stats row.day day (summed row merged row.day) merged
            ∙ rw same (ap (summed row merged) ((same_number_iff row.day day).0 same)))
    | inr other ↦
        rw (e, other)
          (stats_of-set_stats row.day day (summed row merged row.day) merged
            ∙ rw other (nothing_added (stats_of day merged)))
  ]
]

merge_into-sums :
    (service_id : Option String) (day : ℕ) (rows : List ProbeRow) (merged : DayStats)
    → stats_of day (merge_into service_id merged rows) ≡ (
      (stats_of day merged).0 + active_on service_id day rows,
      (stats_of day merged).1 + total_on service_id day rows,
    )
unfolding merge_into active_on total_on
merge_into-sums service_id day [] merged = nothing_added (stats_of day merged)
merge_into-sums service_id day (row ∷ rest) merged =
    let step = stats_of-add_row service_id day merged row in
    let rec = merge_into-sums service_id day rest (add_row service_id merged row) in
    let first : (stats_of day (add_row service_id merged row)).0
        ≡ (stats_of day merged).0 + (if counted service_id day row then row.active else 0) =
      ap (λ c. c.0) step in
    let second : (stats_of day (add_row service_id merged row)).1
        ≡ (stats_of day merged).1 + (if counted service_id day row then row.total else 0) =
      ap (λ c. c.1) step in
    rec ∙ ap₂ (λ (x y : ℕ). (x, y)) (omega (arith, first)) (omega (arith, second))

merged_sums :
    (service_id : Option String) (day : ℕ) (rows : List ProbeRow)
    → stats_of day (merge_into service_id [] rows)
      ≡ (active_on service_id day rows, total_on service_id day rows)
unfolding stats_of
merged_sums service_id day rows =
    merge_into-sums service_id day rows [] ∙ ap₂ (λ (x y : ℕ). (x, y)) (omega arith) (omega arith)

abbrev point_at : ℕ → ℕ × ℕ → Point
point_at day counts = record {
  date = day;
  status = (day_status counts).0;
  uptime = (day_status counts).1;
}

-- The points of a history as the code documents them: one for each day, oldest first, with the status
-- of all the probes of that day.
unfoldable pub history_of : Option String → List ProbeRow → ℕ → ℕ → List Point
history_of service_id rows zero end = []
history_of service_id rows (suc days) end =
    point_at (end - days)
      (active_on service_id (end - days) rows, total_on service_id (end - days) rows)
    ∷ history_of service_id rows days end

-- The history that is filled from merged probe rows has for each of its days, oldest first, the status
-- and uptime of the sums of that day's probes of the service, and of none other, in whatever order the
-- rows come and however they repeat a day.
pub fill_uptime_history_lem :
    (service_id : Option String) (rows : List ProbeRow) (days end : ℕ)
    → fill_uptime_history (merge_day_stats rows service_id) days end
      ≡ history_of service_id rows days end
unfolding fill_uptime_history merge_day_stats history_of
fill_uptime_history_lem service_id rows zero end = refl
fill_uptime_history_lem service_id rows (suc days) end =
    ap₂ ◌∷◌ (ap (point_at (end - days)) (merged_sums service_id (end - days) rows))
      (fill_uptime_history_lem service_id rows days end)
