-- ===== src/LocalDisk/Listing.antt =====
-- What the local disk lists of what it has stored.
use ct_mapreduce.Prelude.{Bytes, List, [], ◌∷◌}
use ct_mapreduce.GoLib.Base64.{base64_encode}
use ct_mapreduce.GoLib.FilePath.{file, dir, Entries, end, entry}
use ct_mapreduce.Storage.ExpDate
use ct_mapreduce.Storage.ExpDate.{ExpDate}
use ct_mapreduce.Storage.Serial
use ct_mapreduce.Storage.Serial.{Serial}

-- The files that StoreCertificatePEM makes in the folder of an issuer, and the folders of the
-- issuers, whose identifiers are the texts of digests.
abbrev pub pem_files : List Serial → Entries
pem_files [] = end
pem_files (s ∷ serials) = entry (Serial.id s) file (pem_files serials)

abbrev pub issuer_folders : List (Bytes × List Serial) → Entries
issuer_folders [] = end
issuer_folders ((digest, serials) ∷ rest) =
    entry (base64_encode digest) (dir (pem_files serials)) (issuer_folders rest)
