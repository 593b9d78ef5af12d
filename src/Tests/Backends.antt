-- ===== src/Tests/Backends.antt =====
-- The mock backend, and the local disk on a file system that keeps every file.
use ct_mapreduce.Prelude.{
  ◌+◌, ◌*◌, subst, true, ◌&&◌, ◌||◌, Bytes, bytes, bytes_eq, member, Result, ok, err, none, some,
  List, [], ◌∷◌, ◌++◌, length, ◌≡◌, ◌≢◌, refl, arith,
}
use ct_mapreduce.Cache.{CertificateLog}
use ct_mapreduce.GoLib.Assoc.{lookup, put, lookup-put_self}
use ct_mapreduce.GoLib.FilePath.{Node, dir}
use ct_mapreduce.GoLib.Time.{hour}
use ct_mapreduce.LocalDisk.{LocalDiskBackend, log_path, store_log_state, load_log_state}
use ct_mapreduce.LocalDisk.Files.{
  FileSystem, store, load, write_and_close, make_directory_if_not_exist,
}
use ct_mapreduce.LocalDisk.Laws.{FileLaws}
use ct_mapreduce.LocalDisk.Listing.{issuer_folders}
use ct_mapreduce.LocalDisk.Stored.{content-store, load_log_state-written}
use ct_mapreduce.MockBackend.{
  MockBackend, issuers_of, new_mock_backend, allocate_exp_date_and_issuer, list_expiration_dates,
}
use ct_mapreduce.MockBackend.Allocation.{IsSorted, allocate_exp_date_and_issuer_refines}
use ct_mapreduce.MockBackend.Dates.{list_expiration_dates_fails}
use ct_mapreduce.Storage.ExpDate
use ct_mapreduce.Storage.ExpDate.{ExpDate, new_exp_date_from_time}
use ct_mapreduce.Tests.Data.{plain_codec, plain_codec-IsFaithful, serial}

-- 2020-09-13 at 12
abbrev exp_date : ExpDate
exp_date = new_exp_date_from_time (884_143 * 24 * hour + 12 * hour)

abbrev issuer : Bytes
issuer = bytes "iss"

new_mock_backend-IsSorted : IsSorted new_mock_backend
unfolding new_mock_backend issuers_of lookup
new_mock_backend-IsSorted = record { lists = λ d. tt }

abbrev one_issuer : MockBackend
one_issuer = (allocate_exp_date_and_issuer exp_date issuer new_mock_backend).2

one_issuer-IsSorted : IsSorted one_issuer
one_issuer-IsSorted =
    (allocate_exp_date_and_issuer_refines exp_date issuer new_mock_backend new_mock_backend-IsSorted
      exp_date issuer).1

allocate_exp_date_and_issuer_refines_example :
    (member issuer
        (issuers_of exp_date (allocate_exp_date_and_issuer exp_date (bytes "abc") one_issuer).2)
      ≡ (bytes_eq (ExpDate.id exp_date) (ExpDate.id exp_date) && bytes_eq issuer (bytes "abc")
          || member issuer (issuers_of exp_date one_issuer)))
    × IsSorted (allocate_exp_date_and_issuer exp_date (bytes "abc") one_issuer).2
allocate_exp_date_and_issuer_refines_example =
    allocate_exp_date_and_issuer_refines exp_date (bytes "abc") one_issuer one_issuer-IsSorted
      exp_date issuer

list_expiration_dates_fails_example :
    (list_expiration_dates
      (884_143 * 24 * hour)
      (allocate_exp_date_and_issuer
        (new_exp_date_from_time (884_143 * 24 * hour))
        issuer
        one_issuer).2).1
    ≢ none
list_expiration_dates_fails_example =
    list_expiration_dates_fails (884_143 * 24 * hour) (884_143 * 24 * hour) issuer one_issuer

-- A file system is its files; an open file is its path.
abbrev Files : Type 0
Files = List (Bytes × Bytes)

abbrev text_at : Bytes → Files → Bytes
text_at path f = elim (lookup path f) [ none ↦ [] | some b ↦ b ]

abbrev open_at : Bytes → Files → Result Bytes
open_at path f = elim (lookup path f) [
  | none ↦ err (record { text = bytes "no such file" })
  | some b ↦ ok path
]

abbrev holds_nothing : Node
holds_nothing = dir (issuer_folders ((bytes "digest", serial ∷ []) ∷ []))

abbrev fs : FileSystem Files Bytes
fs = record {
  is_dir = λ path f. true;
  mkdir_all = λ path f. (none, f);
  open_file = λ path perms f. (ok path, put path [] f);
  open_read = λ path f. (open_at path f, f);
  write = λ fd b f. (length b, none, put fd (text_at fd f ++ b) f);
  read_all = λ fd f. (text_at fd f, none, f);
  close = λ fd f. (none, f);
  node_at = λ path f. holds_nothing;
  name_of = λ path. ExpDate.id exp_date;
}

opened :
    (path : Bytes) (f : Files) (fd : Bytes)
    → (fs.open_file path 0 f).0 ≡ ok fd
    → (fd ≡ path) × (lookup path (fs.open_file path 0 f).1 ≡ some [])
opened path f fd h = (ground arith, lookup-put_self path [] f)

appended :
    (fd b old : Bytes) (f : Files)
    → lookup fd f ≡ some old
    → ((fs.write fd b f).0 ≡ length b) × (lookup fd (fs.write fd b f).2 ≡ some (old ++ b))
appended fd b old f h = (
  refl,
  ground (arith, lookup-put_self fd (old ++ b) f, lookup-put_self fd (text_at fd f ++ b) f),
)

read_back :
    (path b fd : Bytes) (f : Files)
    → open_at path f ≡ ok fd
    → lookup path f ≡ some b
    → text_at fd f ≡ b
read_back path b fd f fine stands =
    let same : path ≡ fd = ground arith in subst (λ p. text_at p f ≡ b) same (ground arith)

abbrev laws : FileLaws fs
laws = record {
  content = λ f path. lookup path f;
  path_of = λ fd. fd;
  open_file_empty = λ path perms f fd h. opened path f fd h;
  write_all = λ fd b old f h stands. appended fd b old f stands;
  close_keeps = λ fd path f. refl;
  open_read_keeps = λ path f. refl;
  read_whole = λ path b fd f fine read stands. read_back path b fd f fine stands;
}

abbrev disk : LocalDiskBackend
disk = record { perms = 420; root_path = bytes "/ct" }

abbrev log_state : CertificateLog
log_state = record {
  short_url = bytes "log";
  max_entry = 3;
  last_entry_time = 0;
  last_update_time = 0;
}

log_written : (store_log_state fs disk plain_codec log_state []).1 ≡ none
unfolding store_log_state store write_and_close make_directory_if_not_exist
log_written = refl

-- A file that is there is read without an error.
reads : (path b : Bytes) (f : Files) → lookup path f ≡ some b → (load fs path f).1 ≡ none
unfolding load
reads path b f stands = ground (arith, stands)

log_read :
    (load fs
      (log_path fs disk plain_codec (bytes "log"))
      (store_log_state fs disk plain_codec log_state []).2).1
    ≡ none
unfolding store_log_state
log_read =
    let path = log_path fs disk plain_codec (bytes "log") in
    let text = 3 ∷ 0 ∷ 0 ∷ bytes "log" in
    reads path text (store fs 420 path text []).1
      (content-store fs laws 420 path text [] log_written)

load_log_state-written_example :
    ((load_log_state fs disk plain_codec
        (bytes "log")
        (store_log_state fs disk plain_codec log_state []).2).0
      ≡ some log_state)
    × ((load_log_state fs disk plain_codec
          (bytes "log")
          (store_log_state fs disk plain_codec log_state []).2).1
        ≡ none)
load_log_state-written_example =
    load_log_state-written fs laws disk plain_codec log_state (3 ∷ 0 ∷ 0 ∷ bytes "log") []
      plain_codec-IsFaithful refl log_written log_read
