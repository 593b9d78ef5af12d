-- ===== src/LocalDisk/Files.antt =====
-- The file system, and the backend's private functions over it.
use ct_mapreduce.Prelude.{
  ℕ, Bool, not, ◌==◌, Bytes, bytes, Error, Result, ok, err, Option, none, some, [], length,
  if◌then◌else◌,
}
use ct_mapreduce.Cache.{Call}
use ct_mapreduce.GoLib.FilePath.{split_dir, Node}

-- The calls of `os` and `ioutil` on a file system of state `F` whose open files are `H`. `is_dir` is
-- false where Stat fails. What Walk meets at a path is `node_at`, and its FileInfo's name `name_of`.
pub record FileSystem (F H : Type 0) : Type 0 where
  pub is_dir : Bytes → F → Bool
  pub mkdir_all : Bytes → F → Option Error × F
  pub open_file : Bytes → ℕ → F → Result H × F
  pub open_read : Bytes → F → Result H × F
  pub write : H → Bytes → Call F ℕ
  pub read_all : H → Call F Bytes
  pub close : H → F → Option Error × F
  pub node_at : Bytes → F → Node
  pub name_of : Bytes → Bytes

module _ {F H : Type 0} (fs : FileSystem F H) where
  unfoldable pub make_directory_if_not_exist : Bytes → F → Option Error × F
  make_directory_if_not_exist id f =
      let dir_path = split_dir id in
      if not (fs.is_dir dir_path f) then fs.mkdir_all dir_path f else (none, f)

  -- the part of `store` on an open file
  unfoldable pub write_and_close : H → Bytes → F → Option Error × F
  write_and_close fd content f =
      let (bytes_written, e, f') = fs.write fd content f in
      elim e [
        | some e ↦ (some e, (fs.close fd f').1)
        | none ↦
            if not (length content == bytes_written)
            then (some (record { text = bytes "Only wrote some of the bytes." }), f')
            else fs.close fd f'
      ]

  -- store; the file is opened for writing, created if it is missing, and cut to nothing
  unfoldable pub store : ℕ → Bytes → Bytes → F → Option Error × F
  unfolding write_and_close
  store perms path content f =
      let (e, f') = make_directory_if_not_exist path f in
      elim e [
        | some e ↦ (some e, f')
        | none ↦
            let (opened, f'') = fs.open_file path perms f' in
            elim opened [ err e ↦ (some e, f'') | ok fd ↦ write_and_close fd content f'' ]
      ]

  unfoldable pub load : Bytes → Call F Bytes
  load path f =
      let (opened, f') = fs.open_read path f in
      elim opened [
        | err e ↦ ([], some e, f')
        | ok fd ↦
            let (content, e, f'') = fs.read_all fd f' in
            elim e [
              | some e ↦ (content, some e, (fs.close fd f'').1)
              | none ↦ let (closed, f3) = fs.close fd f'' in (content, closed, f3)
            ]
      ]
