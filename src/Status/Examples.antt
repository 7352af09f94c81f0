-- ===== src/Status/Examples.antt =====
-- Runs of the uptime history and of the overall status.
use mathlib.Core.List.{Memᴰ}
use forjd.Prelude.{String, ◌≡◌, refl, ◌≢◌, true, false, none, some, List, [], ◌∷◌, map, All}
use forjd.Status.Uptime.{
  ProbeRow, merge_day_stats, no_data, up, partial, day_status, fill_uptime_history,
}
use forjd.Status.Merged.{history_of, fill_uptime_history_lem}
use forjd.Status.Overall.{honest_overall_status, severities, shown, overall_status_lem}

abbrev probes : List ProbeRow
probes =
    record { service_id = "a"; day = 20; active = 3; total = 4 }
    ∷ record { service_id = "b"; day = 20; active = 2; total = 2 }
    ∷ record { service_id = "a"; day = 21; active = 1; total = 1 }
    ∷ record { service_id = "a"; day = 20; active = 1; total = 1 }
    ∷ []

-- The days of service a: none, partial, up.
days_of_a :
    map (λ p. p.status) (fill_uptime_history (merge_day_stats probes (some "a")) 3 21)
    ≡ no_data ∷ partial ∷ up ∷ []
unfolding fill_uptime_history merge_day_stats day_status
days_of_a = refl

fill_uptime_history_lem_example :
    fill_uptime_history (merge_day_stats probes none) 3 21 ≡ history_of none probes 3 21
fill_uptime_history_lem_example = fill_uptime_history_lem none probes 3 21

abbrev two_services : List String
two_services = "operational" ∷ "degraded" ∷ []

overall_status_lem_example :
    (All (λ s. Memᴰ s severities) two_services
      → honest_overall_status two_services true ≡ shown two_services true)
    × (true ≡ false → honest_overall_status two_services true ≢ "operational")
overall_status_lem_example = overall_status_lem two_services true

the_graver_is_shown : shown two_services true ≡ "degraded"
the_graver_is_shown = refl

all_operational :
    (shown ("operational" ∷ "operational" ∷ []) true ≡ "operational")
    × (shown ("operational" ∷ []) false ≡ "unknown")
all_operational = (refl, refl)
