-- ===== src/Intelligence/Totals.antt =====
-- What `analyze_workload` makes of the counts.
use novabase.Common.{
  ℕ, ◌+◌, ◌-◌, ◌^◌, ◌≡◌, refl, ap, ◌∙◌, Bool, true, false, not, min, List, [], ◌∷◌, length, arith,
  if◌then◌else◌,
}
use novabase.Common.Key.{string_key, pair_key}
use novabase.Intelligence.Report.{WorkloadReport}
use novabase.Intelligence.Analysis.{
  TelemetryEvent, command, collection_scan, index_scan, saturating_add, count_event, count_outcome,
  add_successful_metrics,
}
use novabase.Intelligence.Workload.{
  Tally, no_report, nothing_seen, add_event, add_events, analyze_workload,
}

-- What a list of events adds up to
abbrev pub total_of : (TelemetryEvent → ℕ) → List TelemetryEvent → ℕ
total_of f [] = 0
total_of f (e ∷ events) = f e + total_of f events

-- The number of events with a property
abbrev pub number_of : (TelemetryEvent → Bool) → List TelemetryEvent → ℕ
number_of p = total_of (λ e. if p e then 1 else 0)

-- What the successful events add up to
abbrev pub successful_total : (TelemetryEvent → ℕ) → List TelemetryEvent → ℕ
successful_total f = total_of (λ e. if e.succeeded then f e else 0)

-- The access of an event
abbrev pub is_command : TelemetryEvent → Bool
is_command e = elim e.access [ command ↦ true | collection_scan ↦ false | index_scan i ↦ false ]

abbrev pub is_collection_scan : TelemetryEvent → Bool
is_collection_scan e = elim e.access [
  | command ↦ false
  | collection_scan ↦ true
  | index_scan i ↦ false
]

abbrev pub is_index_scan : TelemetryEvent → Bool
is_index_scan e = elim e.access [ command ↦ false | collection_scan ↦ false | index_scan i ↦ true ]

-- The largest `u64` in place of a larger number
abbrev pub capped : ℕ → ℕ
capped n = min n (2 ^ 64 - 1)

-- A field of the report grows by a number that depends on the event.
abbrev Grows : (WorkloadReport → ℕ) → (TelemetryEvent → ℕ) → Type 0
Grows field f =
    (e : TelemetryEvent) (t : Tally) (n : ℕ)
    → field t.report ≡ capped n
    → field (add_event e t).report ≡ capped (n + f e)

add_events-total :
    (field : WorkloadReport → ℕ) (f : TelemetryEvent → ℕ)
    → Grows field f
    → (events : List TelemetryEvent) (t : Tally) (n : ℕ) → field t.report ≡ capped n
    → field (add_events events t).report ≡ capped (n + total_of f events)
unfolding add_events
add_events-total field f grows [] t n h = h ∙ ap capped {x = n} {y = n + 0} (omega arith)
add_events-total field f grows (e ∷ events) t n h =
    add_events-total field f grows events (add_event e t) (n + f e) (grows e t n h)
    ∙ ap capped {x = n + f e + total_of f events} {y = n + (f e + total_of f events)} (omega arith)

-- From an empty report
whole_total :
    (field : WorkloadReport → ℕ) (f : TelemetryEvent → ℕ)
    → Grows field f
    → field no_report ≡ 0
    → (events : List TelemetryEvent)
    → field (add_events events nothing_seen).report ≡ capped (total_of f events)
whole_total field f grows none_yet events =
    add_events-total field f grows events nothing_seen 0 (ground (arith, none_yet))
    ∙ ap capped {x = 0 + total_of f events} {y = total_of f events} (omega arith)

total_events-Grows : Grows (λ r. r.total_events) (λ e. 1)
unfolding add_event count_outcome count_event saturating_add add_successful_metrics
total_events-Grows e t n h = ground (arith, h)

successful_events-Grows : Grows (λ r. r.successful_events) (λ e. if e.succeeded then 1 else 0)
unfolding add_event count_outcome count_event saturating_add add_successful_metrics
successful_events-Grows e t n h = ground (arith, h)

failed_events-Grows : Grows (λ r. r.failed_events) (λ e. if not e.succeeded then 1 else 0)
unfolding add_event count_outcome count_event saturating_add add_successful_metrics
failed_events-Grows e t n h = ground (arith, h)

command_executions-Grows : Grows (λ r. r.command_executions) (λ e. if is_command e then 1 else 0)
unfolding add_event count_outcome count_event saturating_add add_successful_metrics
command_executions-Grows e t n h = ground (arith, h)

collection_scans-Grows :
    Grows (λ r. r.collection_scans) (λ e. if is_collection_scan e then 1 else 0)
unfolding add_event count_outcome count_event saturating_add add_successful_metrics
collection_scans-Grows e t n h = ground (arith, h)

index_scans-Grows : Grows (λ r. r.index_scans) (λ e. if is_index_scan e then 1 else 0)
unfolding add_event count_outcome count_event saturating_add add_successful_metrics
index_scans-Grows e t n h = ground (arith, h)

total_examined-Grows : Grows (λ r. r.total_examined) (λ e. if e.succeeded then e.examined else 0)
unfolding add_event count_outcome count_event saturating_add add_successful_metrics
total_examined-Grows e t n h = ground (arith, h)

total_returned-Grows : Grows (λ r. r.total_returned) (λ e. if e.succeeded then e.returned else 0)
unfolding add_event count_outcome count_event saturating_add add_successful_metrics
total_returned-Grows e t n h = ground (arith, h)

total_elapsed_micros-Grows :
    Grows (λ r. r.total_elapsed_micros) (λ e. if e.succeeded then e.elapsed_micros else 0)
unfolding add_event count_outcome count_event saturating_add add_successful_metrics
total_elapsed_micros-Grows e t n h = ground (arith, h)

-- A report counts all events, the successful and the failed ones, and, of successful and failed events
-- together, those of each access. The documents examined, the results returned and the time are those
-- of the successful events. A number that does not fit 64 bits is the largest that does.
pub analyze_workload-counts :
    (events : List TelemetryEvent)
    → ((analyze_workload events).total_events ≡ capped (length events))
      × ((analyze_workload events).successful_events ≡ capped (number_of (λ e. e.succeeded) events))
      × ((analyze_workload events).failed_events ≡ capped (number_of (λ e. not e.succeeded) events))
      × ((analyze_workload events).command_executions ≡ capped (number_of is_command events))
      × ((analyze_workload events).collection_scans ≡ capped (number_of is_collection_scan events))
      × ((analyze_workload events).index_scans ≡ capped (number_of is_index_scan events))
      × ((analyze_workload events).total_examined
          ≡ capped (successful_total (λ e. e.examined) events))
      × ((analyze_workload events).total_returned
          ≡ capped (successful_total (λ e. e.returned) events))
      × ((analyze_workload events).total_elapsed_micros
          ≡ capped (successful_total (λ e. e.elapsed_micros) events))
unfolding analyze_workload
analyze_workload-counts events = (
  whole_total (λ r. r.total_events) _ total_events-Grows refl events
      ∙ ap capped (total_of-length events),
  whole_total (λ r. r.successful_events) _ successful_events-Grows refl events,
  whole_total (λ r. r.failed_events) _ failed_events-Grows refl events,
  whole_total (λ r. r.command_executions) _ command_executions-Grows refl events,
  whole_total (λ r. r.collection_scans) _ collection_scans-Grows refl events,
  whole_total (λ r. r.index_scans) _ index_scans-Grows refl events,
  whole_total (λ r. r.total_examined) _ total_examined-Grows refl events,
  whole_total (λ r. r.total_returned) _ total_returned-Grows refl events,
  whole_total (λ r. r.total_elapsed_micros) _ total_elapsed_micros-Grows refl events,
)
  where
    total_of-length : (events : List TelemetryEvent) → total_of (λ e. 1) events ≡ length events
    total_of-length [] = refl
    total_of-length (e ∷ events) = omega (arith, total_of-length events)
