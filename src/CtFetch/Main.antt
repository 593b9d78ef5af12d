-- ===== src/CtFetch/Main.antt =====
-- `main`: the logs that are polled, and how the process ends.
use ct_mapreduce.Prelude.{
  ltb, ◌<◌, Bytes, bytes, Error, Result, ok, err, ◌>>=◌, List, [], ◌∷◌, ◌++◌, All, length, ◌≡◌,
  arith, if◌then◌else◌,
}
use ct_mapreduce.GoLib.Text.{Lacks, split, split-Lacks, split_at_separator, trim_space}
use ct_mapreduce.GoLib.Time.{Duration}

-- How the process ends: by glog.Fatalf, with status 0 once all downloads have stopped, or with the
-- usage and status 2.
pub data Exit : Type 0 where
  fatal : Error → Exit
  finished : Exit
  usage : Exit

-- `parse` is url.Parse.
module _ {U : Type 0} (parse : Bytes → Result U) where
  -- the loop over the parts of LogUrlList
  unfoldable pub parse_urls : List Bytes → Result (List U)
  parse_urls [] = ok []
  parse_urls (part ∷ parts) = do
    ct_log_url ← parse (trim_space part)
    log_urls ← parse_urls parts
    ok (ct_log_url ∷ log_urls)

  unfoldable pub log_urls : Bytes → Result (List U)
  log_urls log_url_list =
      if ltb 5 (length log_url_list) then parse_urls (split log_url_list (bytes ",")) else ok []

  abbrev ends : List U → Result (Unit {0}) → Exit
  ends [] sync_engine = usage
  ends (url ∷ urls) (ok sync_engine) = finished
  ends (url ∷ urls) (err e) = fatal e

  abbrev or_fatal : Result Exit → Exit
  or_fatal (ok e) = e
  or_fatal (err e) = fatal e

  -- The arguments are the answers of GetConfiguredStorage, PrepareTelemetry, time.ParseDuration and
  -- NewLogSyncEngine, and the directive LogUrlList.
  unfoldable pub main :
      Result (Unit {0}) → Result (Unit {0}) → Result Duration → Bytes → Result (Unit {0}) → Exit
  main storage telemetry polling_delay_mean log_url_list sync_engine = or_fatal (do
    storage_db ← storage
    prepared ← telemetry
    mean ← polling_delay_mean
    urls ← log_urls log_url_list
    ok (ends urls sync_engine))

  -- Texts with commas between them.
  abbrev pub joined : Bytes → List Bytes → Bytes
  joined a [] = a
  joined a (b ∷ l) = a ++ (bytes "," ++ joined b l)

  split-joined :
      (a : Bytes) (l : List Bytes)
      → All (λ s. Lacks 44 s) (a ∷ l)
      → split (joined a l) (bytes ",") ≡ a ∷ l
  split-joined a [] h = split-Lacks 44 [] a h.0
  split-joined a (b ∷ l) h = rw (split_at_separator 44 [] a (joined b l) h.0, split-joined b l h.1)

  -- Of URLs without commas, joined by commas to a list longer than 5 bytes, each is polled.
  log_urls-joined :
      (a : Bytes) (l : List Bytes)
      → All (λ s. Lacks 44 s) (a ∷ l)
      → 5 < length (joined a l)
      → log_urls (joined a l) ≡ parse_urls (a ∷ l)
  unfolding log_urls
  log_urls-joined a l h long = ground (arith, split-joined a l h, long)
