-- ===== src/CtFetch/Pipeline.antt =====
-- The goroutines of ct-fetch between the downloads and the end of the process: the channel of
-- LogSyncEngine, the workers that StartDatabaseThreads starts, and Stop. A panic of a worker would end
-- the process in the middle; the steps are those of a process without one.
pub mod Counting
pub mod Exit
pub mod Flight
pub mod Polled
pub mod Progress
pub mod Unstarted
use ct_mapreduce.Prelude.{
  ℕ, zero, suc, ◌+◌, ◌<◌, Bool, true, false, Option, some, List, [], ◌∷◌, ◌++◌, length, get_elem?,
  set, sum_by, ◌≡◌,
}

-- make(chan CtLogEntry, 1024*16)
abbrev pub capacity : ℕ
capacity = 16_384

-- Where a goroutine of insertCTWorker stands: not yet at its first statement, which adds it to
-- ThreadWaitGroup; at the receive of its loop; at work on an entry; or returned.
pub data Worker (E : Type 0) : Type 0 where
  spawned : Worker E
  receiving : Worker E
  working : E → Worker E
  returned : Worker E

-- `unsent` holds what each download has still to send: a download has returned when it has nothing
-- left. `handled` are the entries that workers are done with, in order.
pub record System (E : Type 0) : Type 0 where
  pub unsent : List (List E)
  pub channel : List E
  pub closed : Bool
  pub workers : List (Worker E)
  pub handled : List E

module _ {E : Type 0} where
  unfoldable pub start_database_threads : ℕ → List (Worker E)
  start_database_threads zero = []
  start_database_threads (suc n) = spawned ∷ start_database_threads n

  -- The downloads are started, and `num_threads` goroutines.
  unfoldable pub started : List (List E) → ℕ → System E
  started entries num_threads = record {
    unsent = entries;
    channel = [];
    closed = false;
    workers = start_database_threads num_threads;
    handled = [];
  }

  -- len(ld.entryChan)
  abbrev pub approximate_remaining_entries : System E → ℕ
  approximate_remaining_entries s = length s.channel

  -- Whether a goroutine counts in ThreadWaitGroup.
  abbrev pub waited_for : Worker E → ℕ
  waited_for spawned = 0
  waited_for receiving = 1
  waited_for (working e) = 1
  waited_for returned = 0

  -- One step of one goroutine.
  pub data Step (s : System E) : System E → Type 0 where
    -- a download sends while the channel has room
    send :
        (i : ℕ) (e : E) (rest : List E)
        → get_elem? s.unsent i ≡ some (e ∷ rest)
        → length s.channel < capacity
        → Step s (record s { unsent = set s.unsent i rest; channel = s.channel ++ e ∷ [] })
    -- ThreadWaitGroup.Add(1)
    start :
        (j : ℕ)
        → get_elem? s.workers j ≡ some spawned
        → Step s (record s { workers = set s.workers j receiving })
    receive :
        (j : ℕ) (e : E) (rest : List E)
        → get_elem? s.workers j ≡ some receiving
        → s.channel ≡ e ∷ rest
        → Step s (record s { channel = rest; workers = set s.workers j (working e) })
    -- a worker is done with its entry
    handle :
        (j : ℕ) (e : E)
        → get_elem? s.workers j ≡ some (working e)
        → Step s (record s { workers = set s.workers j receiving; handled = s.handled ++ e ∷ [] })
    -- ThreadWaitGroup.Done(), behind the loop over a channel that is closed and empty
    return :
        (j : ℕ)
        → get_elem? s.workers j ≡ some receiving
        → s.channel ≡ []
        → s.closed ≡ true
        → Step s (record s { workers = set s.workers j returned })
    -- DownloaderWaitGroup.Wait() returns, and Stop closes the channel
    close : sum_by length s.unsent ≡ 0 → s.closed ≡ false → Step s (record s { closed = true })

  pub data Reach (s : System E) : System E → Type 0 where
    here : Reach s s
    next : {t u : System E} → Reach s t → Step t u → Reach s u

  -- ThreadWaitGroup.Wait() returns behind Stop: the process ends.
  pub record Exits (s : System E) : Type 0 where
    pub stopped : s.closed ≡ true
    pub none_counted : sum_by waited_for s.workers ≡ 0
