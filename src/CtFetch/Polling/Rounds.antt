-- ===== src/CtFetch/Polling/Rounds.antt =====
-- What one round of a polled log leaves.
use ct_mapreduce.Prelude.{
  ℕ, ◌+◌, ◌-◌, ◌^◌, ◌≤◌, ◌<◌, false, Bytes, Error, Result, ok, err, Result-cases, some, List, [],
  ◌∷◌, All, ◌≡◌, refl, sym, ap, subst, ◌∙◌, arith, inl, inr, length,
}
use ct_mapreduce.Cache.{CertificateLog}
use ct_mapreduce.Certificate.{LogEntry}
use ct_mapreduce.GoLib.Time.{Duration}
use ct_mapreduce.CtFetch.Bounds.{
  BoundsConfig, Answers, LogWorker, new_log_worker, start_pos, end_pos,
}
use ct_mapreduce.CtFetch.Download.{run, download_ct_range_to_channel}
use ct_mapreduce.CtFetch.Download.Slice.{wanted, leaves_from}
use ct_mapreduce.CtFetch.Polling.{LogStore, Round, Synced, is_waiting, save_all, loaded, sync_log}
use ct_mapreduce.CtFetch.Polling.Named.{run-named}
use ct_mapreduce.CtFetch.Polling.Runs.{last_saved, run-Leaves}

-- The size of the tree fits a signed number.
abbrev pub IsSmall : Result ℕ → Type 0
IsSmall (ok n) = n < 2 ^ 63
IsSmall (err e) = Unit

-- What NewLogWorker makes of its answers.
record Built (config : BoundsConfig) (url : Bytes) (l : CertificateLog) (w : LogWorker)
    : Type 0 where
  url_is : w.log_url ≡ url
  state_is : w.log_state ≡ l
  start_is : w.start_pos ≡ start_pos config l
  end_le : w.end_pos < 2 ^ 63

end_pos-le : (config : BoundsConfig) (s n : ℕ) → end_pos config s n ≤ n
unfolding end_pos
end_pos-le config s n = ground arith

new_log_worker-Built :
    (config : BoundsConfig) (url : Bytes) (l : CertificateLog) (c u : Result (Unit {0}))
    (t : Result ℕ) (p : Result Duration) (w : LogWorker)
    → IsSmall t
    → new_log_worker config url
        (record { client = c; sth = t; log_url_obj = u; log_obj = ok l; save_period = p })
      ≡ ok w
    → Built config url l w
unfolding new_log_worker
new_log_worker-Built config url l (ok c) (ok u) (ok n) (ok p) w small h =
    ground (arith, end_pos-le config (start_pos config l) n)
new_log_worker-Built config url l (err e) u t p w small h = cc
new_log_worker-Built config url l (ok c) u (err e) p w small h = cc
new_log_worker-Built config url l (ok c) (err e) (ok n) p w small h = cc
new_log_worker-Built config url l (ok c) (ok u) (ok n) (err e) w small h = cc

module _ {Leaf D : Type 0} (parse : ℕ → Leaf → Result LogEntry) (log : ℕ → Leaf)
    (config : BoundsConfig) (logs : LogStore D) (url : Bytes) where
  -- The database returns the state that it was given last of the log with the short URL.
  pub record IsKept : Type 0 where
    pub short : Bytes
    pub load-save :
        (l : CertificateLog) (d : D) → l.short_url ≡ short → (logs.load (logs.save l d)).0 ≡ ok l
    pub load-load : (d : D) → (logs.load (logs.load d).1).0 ≡ (logs.load d).0

  -- The answers of a round hold leaves of the log, from the index that was asked for.
  abbrev pub IsServed : Round Leaf → Type 0
  IsServed round =
      IsSmall round.setup.sth
      × All
          (λ (answer : ℕ → ℕ → Result (List Leaf)).
            (i m : ℕ) (leaves : List Leaf)
            → answer i m ≡ ok leaves
            → (leaves ≡ leaves_from parse url log i (length leaves)) × (i + length leaves ≤ m + 1))
          round.pages

  -- What a round leaves, of the position `s` that the database holds.
  pub record Advances (short : Bytes) (s : ℕ) (r : Synced D) : Type 0 where
    pub index : ℕ
    pub held : CertificateLog
    pub forward : s ≤ index
    pub small : index < 2 ^ 63
    pub exact : r.sent ≡ wanted parse url log s (index - s)
    pub loads : (logs.load r.store).0 ≡ ok held
    pub named : held.short_url ≡ short
    pub behind : held.max_entry ≤ index
    pub caught_up : r.blocked ≡ false → held.max_entry ≡ index

  module _ (kept : IsKept) where
    load-save_all :
        (saved : List CertificateLog) (l : CertificateLog) (d : D)
        → (logs.load d).0 ≡ ok l
        → All (λ (s : CertificateLog). s.short_url ≡ kept.short) saved
        → (logs.load (save_all parse config logs saved d)).0 ≡ ok (last_saved l saved)
    unfolding save_all
    load-save_all [] l d h named = h
    load-save_all (s ∷ saved) l d h named =
        load-save_all saved s (logs.save s d) (kept.load-save s d named.0) named.1

    last_saved-named :
        (saved : List CertificateLog) (l : CertificateLog)
        → l.short_url ≡ kept.short
        → All (λ (s : CertificateLog). s.short_url ≡ kept.short) saved
        → (last_saved l saved).short_url ≡ kept.short
    last_saved-named [] l h named = h
    last_saved-named (s ∷ saved) l h named = last_saved-named saved s named.0 named.1

    -- A worker that starts where the database stands leaves what a round is to leave.
    run-Advances :
        (w : LogWorker) (l : CertificateLog) (round : Round Leaf) (d : D)
        → w.log_url ≡ url
        → w.log_state ≡ l
        → l.short_url ≡ kept.short
        → w.start_pos ≡ l.max_entry
        → w.end_pos < 2 ^ 63
        → l.max_entry < 2 ^ 63
        → IsServed round
        → (logs.load d).0 ≡ ok l
        → Advances kept.short l.max_entry (record {
          error = (run parse w round.pages round.events round.now).0;
          sent = (run parse w round.pages round.events round.now).1.sent;
          store =
              save_all parse config logs (run parse w round.pages round.events round.now).1.saved d;
          blocked = is_waiting (download_ct_range_to_channel parse w round.pages round.events);
        })
    run-Advances w l round d here state short at_start high low served h =
        let honest =
          subst
            (λ (u : Bytes).
              All
                (λ (answer : ℕ → ℕ → Result (List Leaf)).
                  (i m : ℕ) (leaves : List Leaf)
                  → answer i m ≡ ok leaves
                  → (leaves ≡ leaves_from parse u log i (length leaves))
                    × (i + length leaves ≤ m + 1))
                round.pages)
            (sym here) served.1 in
        let p = (run parse w round.pages round.events round.now).1 in
        let own : w.log_state.short_url ≡ kept.short = ap (λ s. s.short_url) state ∙ short in
        let named = run-named kept.short parse w round.pages round.events round.now own in
        let r =
          run-Leaves parse log w l round.pages round.events round.now (sym at_start) (omega arith)
            high honest in
        record {
          index = p.index;
          held = last_saved l p.saved;
          forward = omega (arith, r.sound);
          small = r.small;
          exact = rw (← here, ← at_start) r.exact;
          loads = load-save_all p.saved l d h named;
          named = last_saved-named p.saved l short named;
          behind = r.behind;
          caught_up = r.caught_up;
        }

    idle-Advances :
        (e : Error) (l : CertificateLog) (d : D)
        → l.short_url ≡ kept.short
        → l.max_entry < 2 ^ 63
        → (logs.load d).0 ≡ ok l
        → Advances kept.short l.max_entry
            (record { error = some e; sent = []; store = d; blocked = false })
    unfolding wanted
    idle-Advances e l d short low h =
        let none_yet : l.max_entry - l.max_entry ≡ 0 = omega arith in
        record {
          index = l.max_entry;
          held = l;
          forward = omega arith;
          small = low;
          exact = rw none_yet;
          loads = h;
          named = short;
          behind = omega arith;
          caught_up = λ returned. refl;
        }

    starts_there : (l : CertificateLog) → config.offset ≡ 0 → start_pos config l ≡ l.max_entry
    unfolding start_pos
    starts_there l h = ground arith

    loaded-load :
        (c u : Result (Unit {0})) (t : Result ℕ) (g : Result CertificateLog) (p : Result Duration)
        (d : D)
        → (logs.load
            (loaded parse config logs
              (record { client = c; sth = t; log_url_obj = u; log_obj = g; save_period = p })
              d).1).0
          ≡ (logs.load d).0
    unfolding loaded
    loaded-load (err e) u t g p d = refl
    loaded-load (ok c) u (err e) g p d = refl
    loaded-load (ok c) (err e) (ok n) g p d = refl
    loaded-load (ok c) (ok u) (ok n) g p d = kept.load-load d

    -- A worker was built from what the database returned.
    loaded-built :
        (c u : Result (Unit {0})) (t : Result ℕ) (g : Result CertificateLog) (p : Result Duration)
        (d : D) (w : LogWorker)
        → let a : Answers = record {
          client = c;
          sth = t;
          log_url_obj = u;
          log_obj = g;
          save_period = p;
        } in
          new_log_worker config url (record a { log_obj = (loaded parse config logs a d).0 }) ≡ ok w
          → (loaded parse config logs a d).0 ≡ (logs.load d).0
    unfolding loaded new_log_worker
    loaded-built (err e) u t g p d w h = cc
    loaded-built (ok c) u (err e) g p d w h = cc
    loaded-built (ok c) (err e) (ok n) g p d w h = cc
    loaded-built (ok c) (ok u) (ok n) g p d w h = refl

    pub sync_log-Advances :
        (round : Round Leaf) (d : D) (l : CertificateLog)
        → config.offset ≡ 0
        → (logs.load d).0 ≡ ok l
        → l.short_url ≡ kept.short
        → l.max_entry < 2 ^ 63
        → IsServed round
        → Advances kept.short l.max_entry (sync_log parse config logs url round d)
    unfolding sync_log
    sync_log-Advances round d l no_offset h short low served =
        let a = round.setup in
        let got = (loaded parse config logs a d).0 in
        let again : (logs.load (loaded parse config logs a d).1).0 ≡ ok l =
          loaded-load a.client a.log_url_obj a.sth a.log_obj a.save_period d ∙ h in
        elim (Result-cases (new_log_worker config url (record a { log_obj = got }))) [
          | inr (e, bad) ↦
              rw (bad, sync_log)
                (idle-Advances e l (loaded parse config logs a d).1 short low again)
          | inl (w, fine) ↦
              let is_l : got ≡ ok l =
                loaded-built a.client a.log_url_obj a.sth a.log_obj a.save_period d w fine ∙ h in
              let fine_l : new_log_worker config url (record a { log_obj = ok l }) ≡ ok w =
                subst
                  (λ (g : Result CertificateLog).
                    new_log_worker config url (record a { log_obj = g }) ≡ ok w)
                  is_l fine in
              let b =
                new_log_worker-Built config url l a.client a.log_url_obj a.sth a.save_period w
                  served.0 fine_l in
              rw (fine, sync_log)
                (run-Advances w l round (loaded parse config logs a d).1 b.url_is b.state_is short
                  (b.start_is ∙ starts_there l no_offset) b.end_le low served again)
        ]
