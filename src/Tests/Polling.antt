-- ===== src/Tests/Polling.antt =====
-- The polling of a log over two rounds.
use ct_mapreduce.Prelude.{ℕ, ◌-◌, ◌≤◌, true, bytes, ok, List, [], ◌∷◌, ◌≡◌, refl, arith, All}
use ct_mapreduce.Cache.{CertificateLog}
use ct_mapreduce.CtFetch.Bounds.{BoundsConfig, Answers}
use ct_mapreduce.CtFetch.Download.Types.{room, tick, signal}
use ct_mapreduce.CtFetch.Download.Slice.{wanted}
use ct_mapreduce.CtFetch.Polling.{LogStore, Round, poll, slept, signal_caught}
use ct_mapreduce.CtFetch.Polling.Resume.{poll_resumes}
use ct_mapreduce.CtFetch.Polling.Rounds.{IsKept, IsServed}
use ct_mapreduce.Tests.Fetch.{
  log, parse, start_state, serve, too_many, serve_honest, too_many_honest,
}

-- A database that is the state of the log.
abbrev pub logs : LogStore CertificateLog
logs = record { load = λ d. (ok d, d); save = λ l d. l }

abbrev pub no_limit : BoundsConfig
no_limit = record { offset = 0; limit = 0 }

abbrev setup : ℕ → Answers
setup size = record {
  client = ok tt;
  sth = ok size;
  log_url_obj = ok tt;
  log_obj = ok start_state;
  save_period = ok 900_000_000_000;
}

-- The first round reaches the end of the tree; a signal ends the second behind one entry.
abbrev pub rounds : List (Round ℕ)
rounds =
    record {
      setup = setup 5;
      pages = serve ∷ too_many ∷ serve ∷ [];
      events = tick 1_000 ∷ room ∷ room ∷ [];
      now = 9;
      wake = slept;
    }
    ∷ record {
      setup = setup 8;
      pages = serve ∷ serve ∷ serve ∷ [];
      events = room ∷ signal ∷ [];
      now = 10;
      wake = signal_caught;
    }
    ∷ []

pub logs-IsKept : IsKept parse log no_limit logs (bytes "log")
logs-IsKept = record {
  short = start_state.short_url;
  load-save = λ l d named. refl;
  load-load = λ d. refl;
}

pub start_state-named : start_state.short_url ≡ logs-IsKept.short
unfolding logs-IsKept
start_state-named = refl

pub rounds-IsServed : All (IsServed parse log no_limit logs (bytes "log")) rounds
rounds-IsServed =
    let one = serve_honest (bytes "log") in
    let busy = too_many_honest (bytes "log") in
    ((omega arith, (one, (busy, (one, tt)))), ((omega arith, (one, (one, (one, tt)))), tt))

poll_resumes_example :
    (last : ℕ) × (3 ≤ last)
    × ((poll parse no_limit logs true (bytes "log") rounds start_state).0
        ≡ wanted parse (bytes "log") log 3 (last - 3))
    × (held : CertificateLog) × (ok
          (poll parse no_limit logs true (bytes "log") rounds start_state).1
        ≡ ok held)
    × (held.short_url ≡ logs-IsKept.short)
    × (held.max_entry ≤ last)
poll_resumes_example =
    poll_resumes parse log no_limit logs (bytes "log") logs-IsKept true rounds start_state
      start_state refl refl start_state-named (omega arith) rounds-IsServed
