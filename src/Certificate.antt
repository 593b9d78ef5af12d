-- ===== src/Certificate.antt =====
-- The certificates and log entries that the program reads: the fields it uses of `x509.Certificate`
-- and `ct.LogEntry`, which the library `certificate-transparency-go` declares.
use ct_mapreduce.Prelude.{ℕ, Bool, Bytes, List}
use ct_mapreduce.GoLib.Time.{Time}

pub record Certificate : Type 0 where
  pub raw : Bytes
  pub raw_tbs : Bytes
  pub raw_spki : Bytes
  pub issuer_common_name : Bytes
  pub issuer_dn : Bytes
  pub not_after : Time
  pub basic_constraints_valid : Bool
  pub is_ca : Bool
  pub crl_distribution_points : List Bytes

-- LogEntry.Leaf.TimestampedEntry.EntryType, with what the entry holds for the type.
pub data EntryType : Type 0 where
  x509_entry : Certificate → EntryType
  precert_entry : Bytes → EntryType
  other_entry : EntryType

pub record LogEntry : Type 0 where
  pub index : ℕ
  pub timestamp : ℕ
  pub entry_type : EntryType
  pub chain : List Bytes
