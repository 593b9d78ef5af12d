-- ===== src/Cache/Codec.antt =====
-- `encoding/json` for the state of a log: an argument of the definitions that store it.
use ct_mapreduce.Prelude.{Bytes, Result, ok, ◌≡◌}
use ct_mapreduce.Cache.{CertificateLog}

-- json.Marshal and json.Unmarshal at the type CertificateLog
pub record LogCodec : Type 0 where
  pub marshal : CertificateLog → Result Bytes
  pub unmarshal : Bytes → Result CertificateLog

-- What has been encoded decodes to the value that was encoded.
abbrev pub IsFaithful : LogCodec → Type 0
IsFaithful j =
    (log : CertificateLog) (text : Bytes) → j.marshal log ≡ ok text → j.unmarshal text ≡ ok log
