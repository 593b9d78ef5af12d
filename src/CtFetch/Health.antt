-- ===== src/CtFetch/Health.antt =====
-- The health of ct-fetch: what the workers of the database note, and what the handler answers.
-- The text of an answer is left out but for its values.
use ct_mapreduce.Prelude.{
  ℕ, ◌-◌, ◌*◌, ◌^◌, ◌<◌, Bytes, Result, Option, none, some, List, [], ◌∷◌, Option-cases, All, ltb,
  leb, ◌==◌, ◌≡◌, refl, sym, subst, arith, inl, inr, if◌then◌else◌,
}
use Prim.Native.Nat.{min}
use ct_mapreduce.Certificate.{Certificate, LogEntry}
use ct_mapreduce.CtFetch.Filter.{FilterConfig}
use ct_mapreduce.CtFetch.Worker.{passed_over, to_store, panic, Verdict-cases, judge}
use ct_mapreduce.GoLib.Time.{Time, Duration, second, zero_time}

-- The field of LogSyncEngine that the handler reads.
pub record LogSyncEngine : Type 0 where
  pub last_update_time : Time

unfoldable pub new_log_sync_engine : LogSyncEngine
new_log_sync_engine = record { last_update_time = zero_time }

unfoldable pub approximate_most_recent_update_timestamp : LogSyncEngine → Time
approximate_most_recent_update_timestamp ld = ld.last_update_time

-- The `select` behind a Store: the clock is noted if the health ticker has fired.
unfoldable pub note_update : Option Time → LogSyncEngine → LogSyncEngine
note_update none ld = ld
note_update (some now) ld = record ld { last_update_time = now }

-- What a worker meets at an entry: the time of the filter, the entry, and the clock if the ticker has
-- fired by the end of a Store.
pub record Pass : Type 0 where
  pub now : Time
  pub log_entry : LogEntry
  pub tick : Option Time

-- time.Since, which stops at the largest duration
unfoldable pub since : Time → Time → Duration
since now t = min (now - t) (2 ^ 63 - 1)

pub data Body : Type 0 where
  no_updates : Body
  longer : Duration → Duration → Body
  shorter : Duration → Duration → Body

pub record Response : Type 0 where
  pub retry_after : Option Duration
  pub status : ℕ
  pub body : Body

-- The handler of "/health"; `now` is the clock
unfoldable pub health_handler : Duration → Time → LogSyncEngine → Response
health_handler polling_delay_mean now ld =
    let approx_update_timestamp : Time = approximate_most_recent_update_timestamp ld in
    let duration : Duration = since now approx_update_timestamp in
    let evaluation_time : Duration = 2 * polling_delay_mean in
    if approx_update_timestamp == zero_time
    then record { retry_after = some (30 * second); status = 503; body = no_updates }
    else if ltb evaluation_time duration
    then record { retry_after = none; status = 500; body = longer duration evaluation_time }
    else record { retry_after = none; status = 200; body = shorter duration evaluation_time }

abbrev pub last_or : Time → List Time → Time
last_or t [] = t
last_or t (u ∷ l) = last_or u l

abbrev newest_of : List Time → Option Time
newest_of [] = none
newest_of (t ∷ l) = some (last_or t l)

-- What the status is to be, of the clock that was noted last.
abbrev pub status_at : Duration → Time → Option Time → ℕ
status_at polling_delay_mean now none = 503
status_at polling_delay_mean now (some u) =
    if leb (now - u) (2 * polling_delay_mean) then 200 else 500

module _ (parse_certificate : Bytes → Result Certificate) (config : FilterConfig) where
  -- The loop of insertCTWorker, as far as the engine's field goes.
  unfoldable pub note_updates : List Pass → LogSyncEngine → LogSyncEngine
  note_updates [] ld = ld
  note_updates (p ∷ passes) ld =
      elim (judge parse_certificate config p.now p.log_entry.entry_type p.log_entry.chain) [
        | passed_over ↦ note_updates passes ld
        | to_store cert issuer ↦ note_updates passes (note_update p.tick ld)
        | panic ↦ ld
      ]

  -- The ticks that are noted: those behind a Store, up to a panic.
  unfoldable pub noted : List Pass → List Time
  noted [] = []
  noted (p ∷ passes) =
      elim (judge parse_certificate config p.now p.log_entry.entry_type p.log_entry.chain) [
        | passed_over ↦ noted passes
        | to_store cert issuer ↦ elim p.tick [ none ↦ noted passes | some t ↦ t ∷ noted passes ]
        | panic ↦ []
      ]

  note_updates_lem :
      (passes : List Pass) (ld : LogSyncEngine)
      → (note_updates passes ld).last_update_time ≡ last_or ld.last_update_time (noted passes)
  unfolding note_updates noted note_update
  note_updates_lem [] ld = refl
  note_updates_lem (p ∷ passes) ld =
      elim (Verdict-cases
        (judge parse_certificate config p.now p.log_entry.entry_type p.log_entry.chain)) [
          | inl h ↦ rw (h, note_updates, noted) (note_updates_lem passes ld)
          | inr (inl h) ↦ rw (h, note_updates, noted) refl
          | inr (inr (cert, issuer, h)) ↦ elim (Option-cases p.tick) [
            | inl quiet ↦ rw (h, note_updates, noted, quiet) (note_updates_lem passes ld)
            | inr (t, fired) ↦
                rw (h, note_updates, noted, fired)
                  (note_updates_lem passes (record { last_update_time = t }))
          ]
        ]

  -- The last tick that was noted.
  abbrev pub newest : List Pass → Option Time
  newest passes = newest_of (noted passes)

  last_or-after :
      (t : Time) (l : List Time)
      → zero_time < t
      → All (λ u. zero_time < u) l
      → zero_time < last_or t l
  last_or-after t [] h hs = h
  last_or-after t (u ∷ l) h hs = last_or-after u l hs.0 hs.1

  status_lem :
      (polling_delay_mean : Duration) (now u : Time)
      → polling_delay_mean < 2 ^ 62
      → zero_time < u
      → (health_handler polling_delay_mean now (record { last_update_time = u })).status
        ≡ (if leb (now - u) (2 * polling_delay_mean) then 200 else 500)
  unfolding health_handler since approximate_most_recent_update_timestamp
  status_lem polling_delay_mean now u small later = ground arith

  never_lem :
      (polling_delay_mean : Duration) (now : Time)
      → (health_handler polling_delay_mean now (record { last_update_time = zero_time })).status
        ≡ 503
  unfolding health_handler approximate_most_recent_update_timestamp
  never_lem polling_delay_mean now = refl

  at_list :
      (polling_delay_mean : Duration) (now : Time) (l : List Time) (ld : LogSyncEngine)
      → ld.last_update_time ≡ last_or zero_time l
      → polling_delay_mean < 2 ^ 62
      → All (λ u. zero_time < u) l
      → (health_handler polling_delay_mean now ld).status
        ≡ status_at polling_delay_mean now (newest_of l)
  at_list polling_delay_mean now [] ld h small later =
      subst
        (λ t.
          (health_handler polling_delay_mean now (record { last_update_time = t })).status ≡ 503)
        (sym h) (never_lem polling_delay_mean now)
  at_list polling_delay_mean now (u ∷ l) ld h small later =
      subst
        (λ t.
          (health_handler polling_delay_mean now (record { last_update_time = t })).status
          ≡ status_at polling_delay_mean now (some (last_or u l)))
        (sym h)
        (status_lem polling_delay_mean now (last_or u l) small (last_or-after u l later.0 later.1))

  -- With a mean delay below 2 ^ 62, and clocks behind the zero time: the handler answers 503 until a
  -- worker has noted the clock behind a Store, and from then on 200 exactly if the clock that was
  -- noted last is at most twice the mean delay old, and else 500.
  pub health_handler_lem :
      (polling_delay_mean : Duration) (now : Time) (passes : List Pass)
      → polling_delay_mean < 2 ^ 62
      → All (λ u. zero_time < u) (noted passes)
      → (health_handler polling_delay_mean now (note_updates passes new_log_sync_engine)).status
        ≡ status_at polling_delay_mean now (newest passes)
  unfolding new_log_sync_engine
  health_handler_lem polling_delay_mean now passes small later =
      at_list polling_delay_mean now (noted passes) (note_updates passes new_log_sync_engine)
        (note_updates_lem passes new_log_sync_engine) small later
