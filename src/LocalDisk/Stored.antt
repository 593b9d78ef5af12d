-- ===== src/LocalDisk/Stored.antt =====
-- What the local disk has stored is loaded again.
use ct_mapreduce.Prelude.{
  ℕ, Bytes, ok, Result-cases, Option-cases, none, some, [], ◌≡◌, ◌∙◌, arith, inl, inr,
}
use ct_mapreduce.Cache.{CertificateLog}
use ct_mapreduce.Cache.Codec.{LogCodec, IsFaithful}
use ct_mapreduce.LocalDisk.{LocalDiskBackend, log_path, store_log_state, load_log_state}
use ct_mapreduce.LocalDisk.Files.{
  FileSystem, make_directory_if_not_exist, write_and_close, store, load,
}
use ct_mapreduce.LocalDisk.Laws.{FileLaws}

module _ {F H : Type 0} (fs : FileSystem F H) (laws : FileLaws fs) where
  open laws use {content, path_of}

  written :
      (fd : H) (b : Bytes) (f : F)
      → content f (path_of fd) ≡ some []
      → (write_and_close fs fd b f).0 ≡ none
      → content (write_and_close fs fd b f).1 (path_of fd) ≡ some b
  unfolding write_and_close
  written fd b f empty fine =
      ground (arith, laws.write_all fd b [] f, laws.close_keeps fd (path_of fd) (fs.write fd b f).2)

  -- A store without an error leaves the content in the file, whatever stood there.
  pub content-store :
      (perms : ℕ) (path b : Bytes) (f : F)
      → (store fs perms path b f).0 ≡ none
      → content (store fs perms path b f).1 path ≡ some b
  unfolding store
  content-store perms path b f fine =
      let (e, f') = make_directory_if_not_exist fs path f in
      let (opened, f'') = fs.open_file path perms f' in
      elim (Option-cases e) [
        | inr (e', bad) ↦ ground arith
        | inl made ↦ elim (Result-cases opened) [
          | inr (e', bad) ↦ ground arith
          | inl (fd, ok_open) ↦
              let (at_path, empty) = laws.open_file_empty path perms f' fd ok_open in
              let closed : (write_and_close fs fd b f'').0 ≡ none = ground arith in
              let done = written fd b f'' (rw at_path empty) closed in
              ground (arith, rw at_path at done)
        ]
      ]

  -- A load without an error returns the content of the file.
  load-content :
      (path b : Bytes) (f : F)
      → content f path ≡ some b
      → (load fs path f).1 ≡ none
      → (load fs path f).0 ≡ b
  unfolding load
  load-content path b f stands fine =
      let (opened, f') = fs.open_read path f in
      let kept : content f' path ≡ some b = laws.open_read_keeps path f ∙ stands in
      elim (Result-cases opened) [
        | inr (e, bad) ↦ ground arith
        | inl (fd, ok_open) ↦
            let read : (fs.read_all fd f').1 ≡ none = ground arith in
            ground (arith, laws.read_whole path b fd f ok_open read kept)
      ]

  -- Over a file system that keeps the documented behaviour, with a faithful codec that encodes
  -- the state, and where storing and reading the file give no error: LoadLogState returns the
  -- state that StoreLogState has stored for its URL.
  pub load_log_state-written :
      (db : LocalDiskBackend) (codec : LogCodec) (log : CertificateLog) (encoded : Bytes) (f : F)
      → IsFaithful codec
      → codec.marshal log ≡ ok encoded
      → (store_log_state fs db codec log f).1 ≡ none
      → (load fs (log_path fs db codec log.short_url) (store_log_state fs db codec log f).2).1
        ≡ none
      → ((load_log_state fs db codec log.short_url (store_log_state fs db codec log f).2).0
          ≡ some log)
        × ((load_log_state fs db codec log.short_url (store_log_state fs db codec log f).2).1
            ≡ none)
  unfolding store_log_state load_log_state
  load_log_state-written db codec log encoded f faithful h stored read =
      let path : Bytes = log_path fs db codec log.short_url in
      let fine : (store fs db.perms path encoded f).0 ≡ none = ground arith in
      let f' = (store fs db.perms path encoded f).1 in
      let reads : (load fs path f').1 ≡ none = ground arith in
      let text = load-content path encoded f' (content-store db.perms path encoded f fine) reads in
      ground (arith, faithful log encoded h, text)
