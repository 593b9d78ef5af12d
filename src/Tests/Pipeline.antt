-- ===== src/Tests/Pipeline.antt =====
-- A certificate that is stored twice, the texts of its dates, and the health of the workers.
use ct_mapreduce.Prelude.{◌+◌, ◌*◌, Bytes, ok, some, List, [], ◌∷◌, ◌≡◌, refl, arith}
use ct_mapreduce.CtFetch.Health.{
  Pass, health_handler, note_updates, new_log_sync_engine, health_handler_lem, newest, noted,
  status_at,
}
use ct_mapreduce.CtFetch.Filter.{cert_is_filtered_out, no_prefix_fits}
use ct_mapreduce.GoLib.Text.{split, split_loop, has_prefix}
use ct_mapreduce.CtFetch.Worker.{judge, judge_cert, with_issuer}
use ct_mapreduce.GoLib.Calendar.{civil, format_date}
use ct_mapreduce.GoLib.Calendar.Texts.{IsWritten}
use ct_mapreduce.GoLib.Time.{minute}
use ct_mapreduce.MockBackend.{MockBackend, new_mock_backend, mock_backend}
use ct_mapreduce.MockCache.{MockRemoteCache}
use ct_mapreduce.MockCache.Remote.{mock_set_laws}
use ct_mapreduce.Storage.Backend.{StorageBackend}
use ct_mapreduce.Storage.Database.{Database, store}
use ct_mapreduce.Storage.Database.Once.{store_again}
use ct_mapreduce.Storage.ExpDate
use ct_mapreduce.Storage.ExpDate.{new_exp_date, new_exp_date_from_time}
use ct_mapreduce.Storage.ExpDate.Texts.{hour_date, day_date, new_exp_date-id}
use ct_mapreduce.Storage.IssuerMetadata.Keeping.{IsReliable}
use ct_mapreduce.Tests.Data.{
  plain_codec, match_all, remote, leaf_cert, empty_cache, empty_cache-IsOrdered, libraries,
}
use ct_mapreduce.Tests.Parsing.{noon, certificate_entry, filter}
use ct_mapreduce.Tests.Storing.{insert_answers}

abbrev backend : StorageBackend MockBackend
backend = mock_backend plain_codec (λ l. ok [])

abbrev database : Database MockRemoteCache MockBackend
database = record {
  backend = new_mock_backend;
  ext_cache = empty_cache;
  known_certs_cache = [];
  meta = [];
}

reliable : IsReliable remote (mock_set_laws plain_codec match_all)
reliable key e s good = insert_answers key e s

abbrev stored : Database MockRemoteCache MockBackend
stored = (store remote backend libraries leaf_cert leaf_cert database).1

abbrev day : Bytes
day = format_date (civil leaf_cert.not_after)

store_again_example :
    ((store remote backend libraries leaf_cert leaf_cert stored).0
      ≡ (backend.mark_dirty day stored.backend).1)
    × ((store remote backend libraries leaf_cert leaf_cert stored).1.backend
        ≡ (backend.mark_dirty day stored.backend).2)
    × ((store remote backend libraries leaf_cert leaf_cert stored).1.meta ≡ stored.meta)
unfolding mock_set_laws
store_again_example =
    store_again remote backend libraries (mock_set_laws plain_codec match_all) reliable leaf_cert
      leaf_cert database empty_cache-IsOrdered refl

noon-IsWritten : IsWritten (noon + 5 * minute)
noon-IsWritten = record { from = omega arith; to = omega arith }

new_exp_date-id_example :
    (new_exp_date (ExpDate.id (hour_date (noon + 5 * minute))) ≡ ok (hour_date (noon + 5 * minute)))
    × (new_exp_date (ExpDate.id (day_date (noon + 5 * minute))) ≡ ok (day_date (noon + 5 * minute)))
    × (new_exp_date (ExpDate.id (new_exp_date_from_time (noon + 5 * minute)))
        ≡ ok (hour_date (noon + 5 * minute)))
new_exp_date-id_example = new_exp_date-id (noon + 5 * minute) noon-IsWritten

-- A certificate that is stored, behind which the ticker has fired.
abbrev passes : List Pass
passes = record { now = 2_000; log_entry = certificate_entry; tick = some noon } ∷ []

passes-noted : noted (λ s. ok leaf_cert) filter passes ≡ noon ∷ []
unfolding noted judge judge_cert with_issuer cert_is_filtered_out no_prefix_fits split split_loop
    has_prefix
passes-noted = refl

health_handler_lem_example :
    (health_handler minute
      (noon + 3 * minute)
      (note_updates (λ s. ok leaf_cert) filter passes new_log_sync_engine)).status
    ≡ status_at minute (noon + 3 * minute) (newest (λ s. ok leaf_cert) filter passes)
health_handler_lem_example =
    health_handler_lem (λ s. ok leaf_cert) filter minute (noon + 3 * minute) passes (omega arith)
      (rw passes-noted (omega arith, tt))
