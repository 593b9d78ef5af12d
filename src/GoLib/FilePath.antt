-- ===== src/GoLib/FilePath.antt =====
-- Go's `path/filepath` on Unix: Clean, Join, Split and Walk.
use ct_mapreduce.Prelude.{
  ℕ, Bool, true, false, ◌||◌, not, ◌==◌, Bytes, bytes, bytes_eq, Error, Option, none, some, List,
  [], ◌∷◌, ◌++◌, if◌then◌else◌,
}
use ct_mapreduce.GoLib.Text.{split, has_prefix}

abbrev pub separator : ℕ
separator = 47

-- One component of a path, on the components so far, the last one first.
unfoldable pub clean_step : Bool → List Bytes → Bytes → List Bytes
clean_step rooted out part =
    if bytes_eq part [] || bytes_eq part (bytes ".")
    then out
    else if not (bytes_eq part (bytes ".."))
    then part ∷ out
    else elim out [
      | [] ↦ if rooted then [] else part ∷ []
      | last ∷ rest ↦ if bytes_eq last (bytes "..") then part ∷ last ∷ rest else rest
    ]

unfoldable pub clean_parts : Bool → List Bytes → List Bytes → List Bytes
unfolding clean_step
clean_parts rooted out [] = out
clean_parts rooted out (part ∷ parts) = clean_parts rooted (clean_step rooted out part) parts

-- The components, the last one first, joined by separators in front of a text.
unfoldable pub join_back : List Bytes → Bytes → Bytes
join_back [] tail = tail
join_back (part ∷ []) tail = part ++ tail
join_back (part ∷ next ∷ rest) tail = join_back (next ∷ rest) (separator ∷ part ++ tail)

abbrev or_dot : Bytes → Bytes
or_dot [] = bytes "."
or_dot (c ∷ s) = c ∷ s

-- filepath.Clean
unfoldable pub clean : Bytes → Bytes
unfolding clean_parts join_back has_prefix
clean path =
    let rooted = has_prefix path (bytes "/") in
    let text = join_back (clean_parts rooted [] (split path (bytes "/"))) [] in
    if rooted then separator ∷ text else or_dot text

unfoldable pub join_texts : List Bytes → Bytes
join_texts [] = []
join_texts (part ∷ []) = part
join_texts (part ∷ next ∷ rest) = part ++ separator ∷ join_texts (next ∷ rest)

-- filepath.Join, which ignores the empty elements at the front
unfoldable pub join : List Bytes → Bytes
unfolding join_texts
join [] = []
join ([] ∷ parts) = join parts
join ((c ∷ s) ∷ parts) = clean (join_texts ((c ∷ s) ∷ parts))

-- the directory of filepath.Split: what stands up to the last separator, with it
unfoldable pub split_dir : Bytes → Bytes
split_dir [] = []
split_dir (c ∷ s) = elim (split_dir s) [
  | d ∷ dir ↦ c ∷ d ∷ dir
  | [] ↦ if c == separator then c ∷ [] else []
]

-- What Walk meets at a path: a file, a directory with its entries in order, a directory that cannot
-- be listed, or a path that Lstat fails on.
mutual
  pub data Node : Type 0 where
    file : Node
    dir : Entries → Node
    unlisted : Error → Node
    broken : Error → Node

  pub data Entries : Type 0 where
    end : Entries
    entry : Bytes → Node → Entries → Entries

-- What the function that is given to Walk returns.
pub data Answer : Type 0 where
  go_on : Answer
  skip_dir : Answer
  fail : Error → Answer

-- `fn` gets the name, whether it is a directory, and the error, over a state that it changes.
module _ {A : Type 0} (fn : Bytes → Bool → Option Error → A → Answer × A) where
  -- the loop goes on behind an entry unless it failed, or was skipped and is no directory
  abbrev pub behind_entry : Bool → Answer × A → (A → Answer × A) → Answer × A
  behind_entry is_directory (go_on, a) k = k a
  behind_entry true (skip_dir, a) k = k a
  behind_entry false (skip_dir, a) k = (skip_dir, a)
  behind_entry is_directory (fail e, a) k = (fail e, a)

  -- a directory's entries are walked if the function goes on at it
  abbrev pub then_entries : Answer × A → (A → Answer × A) → Answer × A
  then_entries (go_on, a) k = k a
  then_entries (skip_dir, a) k = (skip_dir, a)
  then_entries (fail e, a) k = (fail e, a)

  -- the error of Lstat goes to the function, which may skip it
  abbrev pub may_skip : Node → Bool
  may_skip file = false
  may_skip (dir es) = true
  may_skip (unlisted e) = true
  may_skip (broken e) = true

  unfoldable mutual
    pub walk_node : Bytes → Node → A → Answer × A
    walk_node name file a = fn name false none a
    walk_node name (dir es) a = then_entries (fn name true none a) (walk_entries es)
    walk_node name (unlisted e) a = fn name true (some e) a
    walk_node name (broken e) a = fn name false (some e) a

    pub walk_entries : Entries → A → Answer × A
    walk_entries end a = (go_on, a)
    walk_entries (entry name node es) a =
        behind_entry (may_skip node) (walk_node name node a) (walk_entries es)

  abbrev ended : Answer × A → Option Error × A
  ended (go_on, a) = (none, a)
  ended (skip_dir, a) = (none, a)
  ended (fail e, a) = (some e, a)

  -- filepath.Walk, at a root of the given name
  unfoldable pub walk : Bytes → Node → A → Option Error × A
  walk name node a = ended (walk_node name node a)
