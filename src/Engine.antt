-- ===== src/Engine.antt =====
-- engine/engine.go: which cache, backend and metrics sink a program gets. What the libraries answer is
-- an argument; each `err` ends the process by glog.Fatalf.
use ct_mapreduce.Prelude.{
  ◌*◌, Bool, false, ◌&&◌, ltb, Bytes, Result, ok, ◌>>=◌, length, if◌then◌else◌,
}
use ct_mapreduce.Config.{CtConfig, ℤ, pos, negsuc}
use ct_mapreduce.GoLib.Time.{Duration}
use ct_mapreduce.LocalDisk.{LocalDiskBackend, new_local_disk_backend}
use ct_mapreduce.RedisCache.{RedisCache, RedisClient, new_redis_cache}

-- The backend: a LocalDiskBackend, or a NoopBackend.
pub data Backend : Type 0 where
  local_disk : LocalDiskBackend → Backend
  noop : Backend

pub record Storage (S : Type 0) : Type 0 where
  pub remote_cache : RedisCache S
  pub backend : Backend

-- GetConfiguredStorage; `redis_timeout` is what time.ParseDuration makes of the directive, and `s`
-- the state of the server at RedisHost. NewFilesystemDatabase does not fail.
unfoldable pub get_configured_storage :
    {S : Type 0} → RedisClient S → S → Result Duration → CtConfig → Result (Storage S)
get_configured_storage client s redis_timeout ctconfig = do
  redis_timeout_duration ← redis_timeout
  remote_cache ← new_redis_cache client s
  ok (record {
    remote_cache = remote_cache;
    backend =
        if ltb 0 (length ctconfig.cert_path)
        then local_disk (new_local_disk_backend 511 ctconfig.cert_path)
        else noop;
  })

-- Where the metrics go: to a StatsD server, or to memory, which is dumped after each period and kept
-- for five.
pub data Telemetry : Type 0 where
  stats_d : Bytes → ℤ → Telemetry
  in_memory : Duration → Duration → Telemetry

abbrev above_one : ℤ → Bool
above_one (pos n) = ltb 1 n
above_one (negsuc n) = false

-- PrepareTelemetry; the arguments are what NewStatsdSink, NewGlobal and time.ParseDuration answer
unfoldable pub prepare_telemetry :
    Result (Unit {0}) → Result (Unit {0}) → Result Duration → CtConfig → Result Telemetry
prepare_telemetry statsd_sink global stats_refresh_period ctconfig =
    if above_one ctconfig.stats_d_port && ltb 0 (length ctconfig.stats_d_host)
    then (do
      sink ← statsd_sink
      metrics ← global
      ok (stats_d ctconfig.stats_d_host ctconfig.stats_d_port))
    else (do
      info_dump_period ← stats_refresh_period
      metrics ← global
      ok (in_memory info_dump_period (5 * info_dump_period)))
