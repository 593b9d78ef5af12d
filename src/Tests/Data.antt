-- ===== src/Tests/Data.antt =====
-- The inputs that the tests share.
use ct_mapreduce.Prelude.{Bool, true, false, Bytes, bytes, Result, ok, err, [], ◌∷◌, arith}
use ct_mapreduce.Certificate.{Certificate}
use ct_mapreduce.Storage.Serial.{Serial}
use ct_mapreduce.Storage.IssuerMetadata.{Url}
use ct_mapreduce.Storage.Database.{Libraries}
use ct_mapreduce.Cache.{CertificateLog, RemoteCache}
use ct_mapreduce.Cache.Codec.{LogCodec, IsFaithful}
use ct_mapreduce.GoLib.Assoc.{lookup}
use ct_mapreduce.MockCache.{MockRemoteCache, at_key, set_insert}
use ct_mapreduce.MockCache.Remote.{mock_remote}
use ct_mapreduce.MockCache.Sets.{IsOrdered, set_insert-IsOrdered}

-- A codec of log states that keeps their four fields.
abbrev decode : Bytes → Result CertificateLog
decode (m ∷ e ∷ u ∷ url) =
    ok (record { short_url = url; max_entry = m; last_entry_time = e; last_update_time = u })
decode text = err (record { text = bytes "short" })

abbrev pub plain_codec : LogCodec
plain_codec = record {
  marshal = λ log. ok (log.max_entry ∷ log.last_entry_time ∷ log.last_update_time ∷ log.short_url);
  unmarshal = decode;
}

pub plain_codec-IsFaithful : IsFaithful plain_codec
plain_codec-IsFaithful log text h = ground arith

abbrev pub match_all : Bytes → Bytes → Bool
match_all pattern key = true

abbrev pub remote : RemoteCache MockRemoteCache
remote = mock_remote plain_codec match_all

abbrev pub empty_cache : MockRemoteCache
empty_cache = record { entries = []; expirations = []; duplicate = 0; now = 1_000 }

pub empty_cache-IsOrdered : IsOrdered empty_cache
unfolding at_key lookup
empty_cache-IsOrdered = record { lists = λ key. tt }

abbrev pub key : Bytes
key = bytes "key"

abbrev pub entry_a : Bytes
entry_a = bytes "a"

abbrev pub entry_b : Bytes
entry_b = bytes "b"

-- The cache after the insertion of an entry.
abbrev pub one_entry : MockRemoteCache
one_entry = (set_insert key entry_b empty_cache).2

pub one_entry-IsOrdered : IsOrdered one_entry
one_entry-IsOrdered = set_insert-IsOrdered key entry_b empty_cache empty_cache-IsOrdered

abbrev pub leaf_cert : Certificate
leaf_cert = record {
  raw = bytes "raw";
  raw_tbs = bytes "tbs";
  raw_spki = bytes "spki";
  issuer_common_name = bytes "ISRG X1";
  issuer_dn = bytes "CN=ISRG X1";
  not_after = 3_000;
  basic_constraints_valid = true;
  is_ca = false;
  crl_distribution_points = bytes "http://crl" ∷ [];
}

abbrev pub serial : Serial
serial = record { serial = 1 ∷ 255 ∷ [] }

abbrev pub parse_url : Bytes → Result Url
parse_url s = ok (record { scheme = bytes "ldap"; text = s })

abbrev pub libraries : Libraries
libraries = record {
  sha256 = λ s. s;
  parse_url = parse_url;
  pem_encode = λ s. s;
  serial_of = λ c. serial;
  evict = λ l. l;
}
