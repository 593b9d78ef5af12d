-- ===== src/LocalDisk/Laws.antt =====
-- What the calls on files are documented to do, where they return no error.
use ct_mapreduce.Prelude.{ℕ, Bytes, ok, Option, none, some, [], ◌++◌, length, ◌≡◌}
use ct_mapreduce.LocalDisk.Files.{FileSystem}

module _ {F H : Type 0} (fs : FileSystem F H) where
  open fs use {open_file, open_read, write, read_all, close}

  -- `content f path` is what the file at the path holds, and `path_of fd` the path of an open file.
  pub record FileLaws : Type 1 where
    pub content : F → Bytes → Option Bytes
    pub path_of : H → Bytes
    -- O_CREATE and O_TRUNC
    pub open_file_empty :
        (path : Bytes) (perms : ℕ) (f : F) (fd : H)
        → (open_file path perms f).0 ≡ ok fd
        → (path_of fd ≡ path) × (content (open_file path perms f).1 path ≡ some [])
    -- Write returns an error unless it has written everything.
    pub write_all :
        (fd : H) (b old : Bytes) (f : F)
        → (write fd b f).1 ≡ none
        → content f (path_of fd) ≡ some old
        → ((write fd b f).0 ≡ length b) × (content (write fd b f).2 (path_of fd) ≡ some (old ++ b))
    pub close_keeps : (fd : H) (path : Bytes) (f : F) → content (close fd f).1 path ≡ content f path
    pub open_read_keeps :
        (path : Bytes) (f : F) → content (open_read path f).1 path ≡ content f path
    -- ReadAll on a file that was just opened.
    pub read_whole :
        (path b : Bytes) (fd : H) (f : F)
        → (open_read path f).0 ≡ ok fd
        → (read_all fd (open_read path f).1).1 ≡ none
        → content (open_read path f).1 path ≡ some b
        → (read_all fd (open_read path f).1).0 ≡ b
