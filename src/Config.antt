-- ===== src/Config.antt =====
-- config/config.go: each directive from the flags, the environment, the configuration file or its
-- default.
use ct_mapreduce.Prelude.{
  ℕ, zero, suc, ◌+◌, ◌*◌, ◌-◌, ◌^◌, Bool, true, false, ltb, ◌==◌, Bytes, bytes, bytes_eq, member,
  Option, none, some, List, [], ◌∷◌, length, ◌≡◌, arith, if◌then◌else◌,
}
use mathlib.Core.Option
use ct_mapreduce.GoLib.Calendar.{is_digit}

-- An `int`: `negsuc n` is -(n + 1).
pub data ℤ : Type 0 where
  pos : ℕ → ℤ
  negsuc : ℕ → ℤ

-- os.LookupEnv, and the values that gopkg.in/ini.v1 reads of a section; there may be no section.
-- A key that is not in the section reads as the empty text, and as no number and no truth value.
pub record Section : Type 0 where
  pub int_key : Bytes → Option ℤ
  pub uint64_key : Bytes → Option ℕ
  pub bool_key : Bytes → Option Bool
  pub string_key : Bytes → Bytes

pub record Sources : Type 0 where
  pub lookup_env : Bytes → Option Bytes
  pub section : Option Section

-- The digits of a number, behind those that are already read; `none` for any other byte.
unfoldable pub parse_digits : ℕ → Bytes → Option ℕ
unfolding is_digit
parse_digits n [] = some n
parse_digits n (c ∷ s) =
    let rest = parse_digits (10 * n + (c - 48)) s in if is_digit c then rest else none

abbrev below : ℕ → Option ℕ → Option ℕ
below bound none = none
below bound (some n) = if ltb n bound then some n else none

-- strconv.ParseUint(s, 10, bits), for 2^bits
unfoldable pub parse_uint : ℕ → Bytes → Option ℕ
unfolding parse_digits
parse_uint bound [] = none
parse_uint bound (c ∷ s) = below bound (parse_digits 0 (c ∷ s))

abbrev negated : ℕ → ℤ
negated zero = pos 0
negated (suc n) = negsuc n

-- strconv.ParseInt(s, 10, 32)
unfoldable pub parse_int : Bytes → Option ℤ
unfolding parse_uint
parse_int [] = none
parse_int (c ∷ s) =
    if c == 45
    then Option.map negated (parse_uint (2 ^ 31 + 1) s)
    else if c == 43
    then Option.map pos (parse_uint (2 ^ 31) s)
    else Option.map pos (parse_uint (2 ^ 31) (c ∷ s))

abbrev true_texts : List Bytes
true_texts = bytes "1" ∷ bytes "t" ∷ bytes "T" ∷ bytes "true" ∷ bytes "TRUE" ∷ bytes "True" ∷ []

abbrev false_texts : List Bytes
false_texts = bytes "0" ∷ bytes "f" ∷ bytes "F" ∷ bytes "false" ∷ bytes "FALSE" ∷ bytes "False" ∷ []

-- strconv.ParseBool
unfoldable pub parse_bool : Bytes → Option Bool
parse_bool s =
    if member s true_texts then some true else if member s false_texts then some false else none

-- The value that a parse gives, else another.
abbrev or_else {ℓ} : {A : Type ℓ} → Option A → A → A
or_else none d = d
or_else (some a) d = a

abbrev from_env {ℓ} : {A : Type ℓ} → (Bytes → Option A) → Option Bytes → Option A
from_env parse none = none
from_env parse (some val) = parse val

abbrev from_section {ℓ} : {A : Type ℓ} → (Section → Option A) → Option Section → Option A
from_section read none = none
from_section read (some section) = read section

-- confUint64: the environment if it holds a number, else the section if it does, else the default
unfoldable pub conf_uint64 : Sources → Bytes → ℕ → ℕ
conf_uint64 sources key def = elim (from_env (parse_uint (2 ^ 64)) (sources.lookup_env key)) [
  | some u ↦ u
  | none ↦ or_else (from_section (λ s. s.uint64_key key) sources.section) def
]

unfoldable pub conf_bool : Sources → Bytes → Bool → Bool
conf_bool sources key def = elim (from_env parse_bool (sources.lookup_env key)) [
  | some b ↦ b
  | none ↦ or_else (from_section (λ s. s.bool_key key) sources.section) def
]

-- confString: here the environment wins even with an empty text, and the section does not
unfoldable pub conf_string : Sources → Bytes → Bytes → Bytes
conf_string sources key def = or_else (sources.lookup_env key) (elim sources.section [
  | none ↦ def
  | some section ↦ if ltb 0 (length (section.string_key key)) then section.string_key key else def
])

unfoldable pub conf_int : Sources → Bytes → ℤ → ℤ
conf_int sources key def = elim (from_env parse_int (sources.lookup_env key)) [
  | some i ↦ i
  | none ↦ or_else (from_section (λ s. s.int_key key) sources.section) def
]

-- The directives that CLI flags can override, with the values of the flags.
pub record Flags : Type 0 where
  pub flag_offset : ℕ
  pub flag_limit : ℕ
  pub flag_output_refresh_period : Bytes

-- CTConfig, but for the field `Config` that Init leaves alone
pub record CtConfig : Type 0 where
  pub offset : ℕ
  pub limit : ℕ
  pub log_url_list : Bytes
  pub num_threads : ℤ
  pub log_expired_entries : Bool
  pub run_forever : Bool
  pub polling_delay_std_dev : ℤ
  pub polling_delay_mean : Bytes
  pub save_period : Bytes
  pub issuer_cn_filter : Bytes
  pub cert_path : Bytes
  pub google_project_id : Bytes
  pub redis_host : Bytes
  pub redis_timeout : Bytes
  pub output_refresh_period : Bytes
  pub stats_refresh_period : Bytes
  pub stats_d_host : Bytes
  pub stats_d_port : ℤ
  pub health_addr : Bytes

-- the part of Init behind the flags and the file: the values of the file and the environment
unfoldable pub filled_in : Sources → CtConfig
filled_in s = record {
  offset = conf_uint64 s (bytes "offset") 0;
  limit = conf_uint64 s (bytes "limit") 0;
  log_url_list = conf_string s (bytes "logList") [];
  num_threads = conf_int s (bytes "numThreads") (pos 1);
  log_expired_entries = conf_bool s (bytes "logExpiredEntries") false;
  run_forever = conf_bool s (bytes "runForever") false;
  polling_delay_std_dev = conf_int s (bytes "pollingDelayStdDev") (pos 10);
  polling_delay_mean = conf_string s (bytes "pollingDelayMean") (bytes "10m");
  save_period = conf_string s (bytes "savePeriod") (bytes "15m");
  issuer_cn_filter = conf_string s (bytes "issuerCNFilter") [];
  cert_path = conf_string s (bytes "certPath") [];
  google_project_id = conf_string s (bytes "googleProjectId") [];
  redis_host = conf_string s (bytes "redisHost") [];
  redis_timeout = conf_string s (bytes "redisTimeout") (bytes "5s");
  output_refresh_period = conf_string s (bytes "outputRefreshPeriod") (bytes "125ms");
  stats_refresh_period = conf_string s (bytes "statsRefreshPeriod") (bytes "10m");
  stats_d_host = conf_string s (bytes "statsdHost") [];
  stats_d_port = conf_int s (bytes "statsdPort") (pos 0);
  health_addr = conf_string s (bytes "healthAddr") (bytes ":8080");
}

-- Init: the flags win where they differ from their defaults
unfoldable pub init : Flags → Sources → CtConfig
init flags sources =
    let c = filled_in sources in
    record c {
      offset = if ltb 0 flags.flag_offset then flags.flag_offset else c.offset;
      limit = if ltb 0 flags.flag_limit then flags.flag_limit else c.limit;
      output_refresh_period =
          if bytes_eq flags.flag_output_refresh_period (bytes "125ms")
          then c.output_refresh_period
          else flags.flag_output_refresh_period;
    }

-- The first of the values that is there, else 0.
abbrev pub first_some : List (Option ℕ) → ℕ
first_some [] = 0
first_some (none ∷ rest) = first_some rest
first_some (some n ∷ rest) = n

-- The value of a flag whose default is 0.
abbrev pub flag_value : ℕ → Option ℕ
flag_value zero = none
flag_value (suc n) = some (suc n)

-- The sources of a number, those that win first.
abbrev pub numbers : ℕ → Bytes → Sources → List (Option ℕ)
numbers flag key sources =
    flag_value flag
    ∷ from_env (parse_uint (2 ^ 64)) (sources.lookup_env key)
    ∷ from_section (λ s. s.uint64_key key) sources.section
    ∷ []

-- Init takes the offset and the limit from the flag if it is not 0, else from the environment if it
-- holds a 64-bit number, else from the file if it does, else 0.
pub init-numbers :
    (flags : Flags) (sources : Sources)
    → ((init flags sources).offset
        ≡ first_some (numbers flags.flag_offset (bytes "offset") sources))
      × ((init flags sources).limit ≡ first_some (numbers flags.flag_limit (bytes "limit") sources))
unfolding init filled_in conf_uint64
init-numbers flags sources = ground arith
