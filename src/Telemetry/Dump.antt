-- ===== src/Telemetry/Dump.antt =====
-- telemetry/telemetry.go: what is written of the metrics. A number is the text that fmt.Fprintf makes
-- of it, and a map is a list in the order that the loop happens to take.
use ct_mapreduce.Prelude.{Bytes, bytes, List, [], ◌∷◌, ◌++◌, append_assoc, ◌≡◌, refl, sym, ap, ◌∙◌}
use ct_mapreduce.Telemetry.{flatten_labels}

pub record Metric : Type 0 where
  pub name : Bytes
  pub labels : List Bytes
  pub shown : Bytes

-- metrics.IntervalMetrics
pub record Interval : Type 0 where
  pub shown_interval : Bytes
  pub gauges : List Metric
  pub points : List (Bytes × List Bytes)
  pub counters : List Metric
  pub samples : List Metric

-- fmt.Fprintf(buf, "[%v][…] '%s': …\n", …)
unfoldable line : Bytes → Bytes → Bytes → Bytes → Bytes
line interval kind name shown =
    bytes "["
    ++ (interval
        ++ (bytes "]["
            ++ (kind ++ (bytes "] '" ++ (name ++ (bytes "': " ++ (shown ++ bytes "\n")))))))

-- the loop over the gauges, over the counters and over the samples
unfoldable metric_lines : Bytes → Bytes → List Metric → Bytes
metric_lines interval kind [] = []
metric_lines interval kind (m ∷ rest) =
    line interval kind (flatten_labels m.name m.labels) m.shown ++ metric_lines interval kind rest

unfoldable value_lines : Bytes → Bytes → List Bytes → Bytes
value_lines interval name [] = []
value_lines interval name (v ∷ vals) =
    line interval (bytes "P") name v ++ value_lines interval name vals

-- the loops over the points, whose names have no labels
unfoldable point_lines : Bytes → List (Bytes × List Bytes) → Bytes
point_lines interval [] = []
point_lines interval ((name, vals) ∷ rest) =
    value_lines interval name vals ++ point_lines interval rest

unfoldable interval_text : Interval → Bytes
interval_text i =
    metric_lines i.shown_interval (bytes "G") i.gauges
    ++ (point_lines i.shown_interval i.points
        ++ (metric_lines i.shown_interval (bytes "C") i.counters
            ++ metric_lines i.shown_interval (bytes "S") i.samples))

-- dumpStats: the text that is written
unfoldable dump_stats : List Interval → Bytes
dump_stats [] = []
dump_stats (i ∷ []) = []
dump_stats (i ∷ j ∷ rest) = interval_text i ++ dump_stats (j ∷ rest)

-- What `run` receives: a tick, while the sink holds the intervals, or that stopCh is closed.
data Event : Type 0 where
  ticked : List Interval → Event
  stopped : Event

-- run: the texts that are written; a write that fails is only logged
unfoldable run : List Event → List Bytes
run [] = []
run (ticked data_ ∷ events) = dump_stats data_ ∷ run events
run (stopped ∷ events) = []

-- The texts of intervals one behind another.
unfoldable texts : List Interval → Bytes
texts [] = []
texts (i ∷ rest) = interval_text i ++ texts rest

-- The interval that is still aggregated is not written, and each before it once.
dump_stats-last : (l : List Interval) (i : Interval) → dump_stats (l ++ i ∷ []) ≡ texts l
unfolding dump_stats texts
dump_stats-last [] i = refl
dump_stats-last (j ∷ []) i = refl
dump_stats-last (j ∷ k ∷ l) i = ap (λ t. interval_text j ++ t) (dump_stats-last (k ∷ l) i)

texts-append : (l m : List Interval) → texts (l ++ m) ≡ texts l ++ texts m
unfolding texts
texts-append [] m = refl
texts-append (i ∷ l) m =
    ap (λ t. interval_text i ++ t) (texts-append l m) ∙ sym (append_assoc (interval_text i) _ _)

-- A later dump of the same intervals and more writes the earlier text again, and behind it the
-- intervals that have ended since.
dump_stats-again :
    (l m : List Interval) (i j : Interval)
    → dump_stats ((l ++ i ∷ m) ++ j ∷ []) ≡ dump_stats (l ++ i ∷ []) ++ texts (i ∷ m)
dump_stats-again l m i j =
    rw (dump_stats-last (l ++ i ∷ m) j, dump_stats-last l i) (texts-append l (i ∷ m))

-- Once it is stopped nothing is written.
run-stopped :
    (before after : List Event) → run (before ++ stopped ∷ after) ≡ run (before ++ stopped ∷ [])
unfolding run
run-stopped [] after = refl
run-stopped (ticked d ∷ before) after = ap (◌∷◌ (dump_stats d)) (run-stopped before after)
run-stopped (stopped ∷ before) after = refl
