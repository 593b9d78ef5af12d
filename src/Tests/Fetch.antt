-- ===== src/Tests/Fetch.antt =====
-- The download, its bounds and its filter.
use ct_mapreduce.Prelude.{
  ℕ, ◌+◌, ◌*◌, ◌%◌, ◌^◌, ◌-◌, ◌<◌, ◌≤◌, leb, false, not, ◌&&◌, ◌||◌, ◌==◌, Bytes, bytes, Result, ok,
  err, List, [], ◌∷◌, ◌++◌, length, ◌≡◌, refl, arith, if◌then◌else◌, All,
}
use ct_mapreduce.Cache.{CertificateLog}
use ct_mapreduce.Certificate.{LogEntry, other_entry}
use ct_mapreduce.GoLib.Text.{split, has_prefix, contains}
use ct_mapreduce.GoLib.Time.{before}
use ct_mapreduce.CtFetch.Bounds.{BoundsConfig, LogWorker, end_pos, end_pos_wraps}
use ct_mapreduce.CtFetch.Filter.{
  FilterConfig, cert_is_filtered_out, cert_is_filtered_out_iff, some_prefix_fits,
  uint64_to_timestamp, of_milliseconds, uint64_to_timestamp_early,
}
use ct_mapreduce.CtFetch.Download.Types.{Event, room, tick, signal}
use ct_mapreduce.CtFetch.Download.{
  request_max, run, is_too_many_requests, download_loop, start, process_entries, process_entry,
  submit, save_state, finish, download_ct_range_to_channel,
}
use ct_mapreduce.CtFetch.Download.Slice.{leaves_from, wanted}
use ct_mapreduce.CtFetch.Download.Exact.{IsHonest, Downloaded, download-Downloaded}
use ct_mapreduce.CtFetch.Download.Complete.{
  IsPrompt, IsBusy, Serves, nothing, prompt, busy, Completed, download-Completed,
}
use ct_mapreduce.CtFetch.Download.Resume.{run_resumes, HasReturned}
use ct_mapreduce.Tests.Data.{leaf_cert}

abbrev pub bounds : BoundsConfig
bounds = record { offset = 0; limit = 10 }

abbrev far_limit : BoundsConfig
far_limit = record { offset = 0; limit = 2 ^ 64 - 1 }

end_pos_wraps_example : end_pos far_limit 3 8 < 3
end_pos_wraps_example =
    end_pos_wraps far_limit 3 8 (omega arith) (omega arith) (omega arith) (omega arith)

uint64_to_timestamp_early_example :
    uint64_to_timestamp 1_500 + (1_500 % 1_000) * 999_999 ≡ of_milliseconds 1_500
uint64_to_timestamp_early_example = uint64_to_timestamp_early 1_500

abbrev filter : FilterConfig
filter = record { issuer_cn_filter = bytes "Let,ISRG"; log_expired_entries = false }

cert_is_filtered_out_iff_example : not (cert_is_filtered_out filter 2_000 leaf_cert) ≡ (
    not (leaf_cert.basic_constraints_valid && leaf_cert.is_ca)
    && (not (before leaf_cert.not_after 2_000) || filter.log_expired_entries)
    && (length filter.issuer_cn_filter == 0
        || some_prefix_fits leaf_cert.issuer_common_name
            (split filter.issuer_cn_filter (bytes ","))))
cert_is_filtered_out_iff_example = cert_is_filtered_out_iff filter 2_000 leaf_cert

-- A log whose leaves are their positions; the leaf at 4 cannot be parsed.
abbrev pub log : ℕ → ℕ
log i = i

abbrev pub parse : ℕ → ℕ → Result LogEntry
parse i leaf =
    if leaf == 4
    then err (record { text = bytes "parse" })
    else ok (record { index = i; timestamp = leaf; entry_type = other_entry; chain = [] })

abbrev pub start_state : CertificateLog
start_state = record {
  short_url = bytes "log";
  max_entry = 3;
  last_entry_time = 0;
  last_update_time = 0;
}

abbrev worker : LogWorker
worker = record {
  log_url = bytes "log";
  log_state = start_state;
  tree_size = 5;
  start_pos = 3;
  end_pos = 5;
}

-- An answer with one leaf, and one that asks for fewer requests.
abbrev pub serve : ℕ → ℕ → Result (List ℕ)
serve i m = if leb i m then ok (log i ∷ []) else err (record { text = bytes "range" })

abbrev pub too_many : ℕ → ℕ → Result (List ℕ)
too_many i m = err (record { text = bytes "got HTTP Status \"429 Too Many Requests\"" })

abbrev answers : List (ℕ → ℕ → Result (List ℕ))
answers = serve ∷ too_many ∷ serve ∷ []

abbrev events : List Event
events = tick 1_000 ∷ room ∷ room ∷ []

pub serve_honest :
    (url : Bytes) (i m : ℕ) (leaves : List ℕ)
    → serve i m ≡ ok leaves
    → (leaves ≡ leaves_from parse url log i (length leaves)) × (i + length leaves ≤ m + 1)
unfolding leaves_from
serve_honest url i m leaves h = ground arith

pub too_many_honest :
    (url : Bytes) (i m : ℕ) (leaves : List ℕ)
    → too_many i m ≡ ok leaves
    → (leaves ≡ leaves_from parse url log i (length leaves)) × (i + length leaves ≤ m + 1)
too_many_honest url i m leaves h = ground arith

answers-IsHonest : All (IsHonest parse worker log) answers
answers-IsHonest =
    (serve_honest (bytes "log"), (too_many_honest (bytes "log"), (serve_honest (bytes "log"), tt)))

serve-IsPrompt : IsPrompt serve
serve-IsPrompt i m h = (log i ∷ [], ground arith, ground arith, omega arith)

too_many-IsBusy : IsBusy too_many
unfolding is_too_many_requests contains has_prefix
too_many-IsBusy i m =
    (record { text = bytes "got HTTP Status \"429 Too Many Requests\"" }, refl, refl)

answers_serve : Serves 2 answers
answers_serve =
    prompt {n = 1} serve-IsPrompt
      (busy too_many-IsBusy (prompt {n = 0} serve-IsPrompt nothing (omega arith))) (omega arith)

download-Downloaded_example :
    Downloaded parse worker log (download_ct_range_to_channel parse worker answers events)
download-Downloaded_example =
    download-Downloaded parse worker log answers events (omega arith) (omega arith) answers-IsHonest

download-Completed_example :
    Completed parse worker (download_ct_range_to_channel parse worker answers events)
download-Completed_example =
    download-Completed parse worker 2 answers events (omega arith) answers_serve (omega arith) tt
      (omega arith)

-- A first run that a signal ends behind one entry, and the run behind it.
abbrev cut : List Event
cut = room ∷ signal ∷ []

abbrev next_worker : LogWorker
next_worker = record {
  log_url = bytes "log";
  log_state = start_state;
  tree_size = 8;
  start_pos = 5;
  end_pos = 8;
}

next_answers-IsHonest : All (IsHonest parse next_worker log) (serve ∷ serve ∷ serve ∷ [])
next_answers-IsHonest =
    (serve_honest (bytes "log"), (serve_honest (bytes "log"), (serve_honest (bytes "log"), tt)))

first_saves : 5 ≡ (run parse worker answers events 9).1.log_state.max_entry
unfolding run finish download_ct_range_to_channel start download_loop process_entries process_entry
    submit save_state request_max is_too_many_requests contains has_prefix uint64_to_timestamp
first_saves = refl

first_returned :
    HasReturned parse log worker (download_ct_range_to_channel parse worker answers events)
unfolding download_ct_range_to_channel start download_loop process_entries process_entry submit
    save_state request_max is_too_many_requests contains has_prefix uint64_to_timestamp
first_returned = tt

next_returned :
    HasReturned parse log next_worker
      (download_ct_range_to_channel parse next_worker (serve ∷ serve ∷ serve ∷ []) cut)
unfolding download_ct_range_to_channel start download_loop process_entries process_entry submit
    save_state request_max is_too_many_requests contains has_prefix uint64_to_timestamp
next_returned = tt

run_resumes_example :
    (run parse worker answers events 9).1.sent
      ++ (run parse next_worker (serve ∷ serve ∷ serve ∷ []) cut 10).1.sent
    ≡ wanted parse
        (bytes "log")
        log
        3
        ((run parse next_worker (serve ∷ serve ∷ serve ∷ []) cut 10).1.index - 3)
run_resumes_example =
    run_resumes parse log worker next_worker answers (serve ∷ serve ∷ serve ∷ []) events cut 9 10
      refl (omega arith) (omega arith) first_saves (omega arith) (omega arith) answers-IsHonest
      next_answers-IsHonest first_returned next_returned
