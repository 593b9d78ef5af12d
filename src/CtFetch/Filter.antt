-- ===== src/CtFetch/Filter.antt =====
-- `certIsFilteredOut` and `uint64ToTimestamp`.
use ct_mapreduce.Prelude.{
  ℕ, ◌+◌, ◌*◌, ◌/◌, ◌%◌, Bool, true, false, not, ◌&&◌, ◌||◌, ◌==◌, Bytes, bytes, List, [], ◌∷◌,
  length, ◌≡◌, arith, if◌then◌else◌,
}
use ct_mapreduce.Certificate.{Certificate}
use ct_mapreduce.GoLib.Text.{has_prefix, split}
use ct_mapreduce.GoLib.Time.{Time, before, second, millisecond}

-- The directives that the filter reads.
pub record FilterConfig : Type 0 where
  pub issuer_cn_filter : Bytes
  pub log_expired_entries : Bool

-- the loop over the prefixes: `skip` becomes false at the first that fits
unfoldable pub no_prefix_fits : Bool → Bytes → List Bytes → Bool
no_prefix_fits skip common_name [] = skip
no_prefix_fits skip common_name (filter ∷ rest) =
    let later = no_prefix_fits skip common_name rest in
    if has_prefix common_name filter then false else later

-- certIsFilteredOut, at the time `now`
unfoldable pub cert_is_filtered_out : FilterConfig → Time → Certificate → Bool
cert_is_filtered_out config now cert =
    if cert.basic_constraints_valid && cert.is_ca
    then true
    else if before cert.not_after now && not config.log_expired_entries
    then true
    else no_prefix_fits (not (length config.issuer_cn_filter == 0)) cert.issuer_common_name
        (split config.issuer_cn_filter (bytes ","))

-- 1 January 1970
abbrev pub unix_epoch : Time
unix_epoch = 865_625 * 86_400 * second

-- time.Unix(sec, nsec), for times after 1970
abbrev pub unix_time : ℕ → ℕ → Time
unix_time sec nsec = unix_epoch + sec * second + nsec

unfoldable pub uint64_to_timestamp : ℕ → Time
uint64_to_timestamp timestamp = unix_time (timestamp / 1_000) (timestamp % 1_000)

-- A log's timestamp counts milliseconds.
abbrev pub of_milliseconds : ℕ → Time
of_milliseconds timestamp = unix_epoch + timestamp * millisecond

-- The milliseconds within the second are taken for nanoseconds: the time is too early by 999,999
-- nanoseconds for each of them.
pub uint64_to_timestamp_early :
    (timestamp : ℕ)
    → uint64_to_timestamp timestamp + (timestamp % 1_000) * 999_999 ≡ of_milliseconds timestamp
unfolding uint64_to_timestamp
uint64_to_timestamp_early timestamp = omega arith

-- Some prefix of the list fits the name.
unfoldable pub some_prefix_fits : Bytes → List Bytes → Bool
some_prefix_fits common_name [] = false
some_prefix_fits common_name (filter ∷ rest) =
    has_prefix common_name filter || some_prefix_fits common_name rest

no_prefix_fits_lem :
    (skip : Bool) (common_name : Bytes) (filters : List Bytes)
    → no_prefix_fits skip common_name filters ≡ (skip && not (some_prefix_fits common_name filters))
unfolding no_prefix_fits some_prefix_fits
no_prefix_fits_lem skip common_name [] = ground arith
no_prefix_fits_lem skip common_name (f ∷ fs) =
    ground (arith, no_prefix_fits_lem skip common_name fs)

-- A certificate passes exactly if it is not one of a CA, it has not expired or expired ones are
-- wanted, and no filter is set or a prefix of the filter begins its issuer's common name.
pub cert_is_filtered_out_iff :
    (config : FilterConfig) (now : Time) (cert : Certificate)
    → not (cert_is_filtered_out config now cert) ≡ (
        not (cert.basic_constraints_valid && cert.is_ca)
        && (not (before cert.not_after now) || config.log_expired_entries)
        && (length config.issuer_cn_filter == 0
            || some_prefix_fits cert.issuer_common_name
                (split config.issuer_cn_filter (bytes ","))))
unfolding cert_is_filtered_out
cert_is_filtered_out_iff config now cert = ground (
  arith,
  no_prefix_fits_lem (not (length config.issuer_cn_filter == 0)) cert.issuer_common_name
      (split config.issuer_cn_filter (bytes ",")),
)
