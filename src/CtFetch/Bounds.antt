-- ===== src/CtFetch/Bounds.antt =====
-- `NewLogWorker`: which entries of a log a worker downloads.
use ct_mapreduce.Prelude.{
  ℕ, ◌+◌, ◌^◌, ◌%◌, ◌<◌, ◌≤◌, ◌&&◌, ltb, Bytes, Result, ok, ◌>>=◌, ◌≡◌, arith, if◌then◌else◌,
}
use Prim.Native.Nat.{min}
use ct_mapreduce.GoLib.Time.{Duration}
use ct_mapreduce.Cache.{CertificateLog}

abbrev pub u64 : ℕ → ℕ
u64 n = n % 2 ^ 64

-- The directives that the worker reads.
pub record BoundsConfig : Type 0 where
  pub offset : ℕ
  pub limit : ℕ

unfoldable pub start_pos : BoundsConfig → CertificateLog → ℕ
start_pos config log = if ltb 0 config.offset then config.offset else log.max_entry

unfoldable pub end_pos : BoundsConfig → ℕ → ℕ → ℕ
end_pos config start tree_size =
    if ltb 0 config.limit && ltb (u64 (start + config.limit)) tree_size
    then u64 (start + config.limit)
    else tree_size

-- The fields of LogWorker that its methods read and write.
pub record LogWorker : Type 0 where
  pub log_url : Bytes
  pub log_state : CertificateLog
  pub tree_size : ℕ
  pub start_pos : ℕ
  pub end_pos : ℕ

-- What NewLogWorker gets from the log's client, the URL parser, the database and the duration
-- parser, in the order of the calls. Each error ends it.
pub record Answers : Type 0 where
  pub client : Result (Unit {0})
  pub sth : Result ℕ
  pub log_url_obj : Result (Unit {0})
  pub log_obj : Result CertificateLog
  pub save_period : Result Duration

unfoldable pub new_log_worker : BoundsConfig → Bytes → Answers → Result LogWorker
new_log_worker config ct_log_url answers = do
  ct_log ← answers.client
  tree_size ← answers.sth
  log_url_obj ← answers.log_url_obj
  log_obj ← answers.log_obj
  save_period ← answers.save_period
  ok (record {
    log_url = ct_log_url;
    log_state = log_obj;
    tree_size = tree_size;
    start_pos = start_pos config log_obj;
    end_pos = end_pos config (start_pos config log_obj) tree_size;
  })

-- While start and a limit that is set do not overflow, a worker ends at the head of the log or
-- after `limit` entries, whichever is first.
end_pos_lem :
    (config : BoundsConfig) (start tree_size : ℕ)
    → start + config.limit < 2 ^ 64
    → 0 < config.limit
    → end_pos config start tree_size ≡ min (start + config.limit) tree_size
unfolding end_pos
end_pos_lem config start tree_size h pos = ground arith

-- A limit of 0 is no limit.
end_pos_unlimited :
    (config : BoundsConfig) (start tree_size : ℕ)
    → config.limit ≡ 0
    → end_pos config start tree_size ≡ tree_size
unfolding end_pos
end_pos_unlimited config start tree_size h = ground arith

-- Where a start up to the head of the log and a limit overflow 64 bits together, the worker ends
-- before it starts.
pub end_pos_wraps :
    (config : BoundsConfig) (start tree_size : ℕ)
    → config.limit < 2 ^ 64
    → start ≤ tree_size
    → tree_size < 2 ^ 64
    → 2 ^ 64 ≤ start + config.limit
    → end_pos config start tree_size < start
unfolding end_pos
end_pos_wraps config start tree_size l s t h = ground arith
