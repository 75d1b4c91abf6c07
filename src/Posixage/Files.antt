-- ===== src/Posixage/Files.antt =====
-- `os.Root` as the package uses it: directories of files, one level deep. An operation may fail for a
-- reason of the system; which ones do is written down in the state beforehand, one entry for each
-- operation, and after the last entry all succeed.
pub mod Runs
use secrets_engine.Maps.{Map, empty, put, remove, is_some}
use secrets_engine.Posixage.{StoreError, exists, not_exist, io_error}
use secrets_engine.Prelude.{
  ℕ, List, [], ◌∷◌, Bool, true, false, Option, none, some, Result, ok, err, take, if◌then◌else◌,
}
use secrets_engine.Text.{Bytes, equal}

-- What the system answers, how many bytes of a write it has taken by then, and which files `RemoveAll`
-- has not removed.
pub record Fault : Type 0 where
  pub code : ℕ
  pub written : ℕ
  pub remaining : Bytes → Bool

abbrev pub Files : Type 0
Files = Map Bytes

pub record Root : Type 0 where
  pub dirs : Map Files
  pub faults : List (Option Fault)

abbrev pub M : Type 0 → Type 0
M A = Root → Result StoreError A × Root

abbrev pub continue_with : {A B : Type 0} → Result StoreError A → (A → M B) → M B
continue_with (err e) f root = (err e, root)
continue_with (ok a) f root = f a root

infixl 5 ◌>>=◌ ◌>>◌
abbrev pub ◌>>=◌ : {A B : Type 0} → M A → (A → M B) → M B
◌>>=◌ m f root = continue_with (m root).0 f (m root).1

abbrev pub ◌>>◌ : {B : Type 0} → M (Unit {0}) → M B → M B
m >> k = m >>= λ _. k

abbrev pub done : {A : Type 0} → Result StoreError A → M A
done r root = (r, root)

-- An operation that fails if the next entry says so; the first function is what it does then.
abbrev attempt_on : {A : Type 0} → List (Option Fault) → (Fault → Root → Root) → M A → M A
attempt_on [] spoil op root = op root
attempt_on (none ∷ faults) spoil op root = op (record root { faults = faults })
attempt_on (some f ∷ faults) spoil op root =
    (err (io_error f.code), spoil f (record root { faults = faults }))

abbrev pub attempt_or : {A : Type 0} → (Fault → Root → Root) → M A → M A
attempt_or spoil op root = attempt_on root.faults spoil op root

abbrev pub attempt : {A : Type 0} → M A → M A
attempt op = attempt_or (λ f root. root) op

abbrev pub present : {A : Type 0} → Option A → Result StoreError (Unit {0})
present none = err not_exist
present (some a) = ok tt

-- `Stat` and `OpenRoot` of a directory
unfoldable pub stat : Bytes → M (Unit {0})
stat dir = attempt (λ root. (present (root.dirs dir), root))

abbrev pub make_dir : Option Files → Bytes → M (Unit {0})
make_dir none dir root = (ok tt, record root { dirs = put dir empty root.dirs })
make_dir (some files) dir root = (err exists, root)

-- `Mkdir`
unfoldable pub mkdir : Bytes → M (Unit {0})
mkdir dir = attempt (λ root. make_dir (root.dirs dir) dir root)

abbrev on_dir : Bool → (Files → Files) → Option Files → Option Files
on_dir true f (some files) = some (f files)
on_dir true f none = none
on_dir false f files = files

-- A change of the files of a directory.
abbrev pub change : Bytes → (Files → Files) → Root → Root
change dir f root = record root { dirs = λ j. on_dir (equal dir j) f (root.dirs j) }

-- The files that are left.
abbrev pub restrict : (Bytes → Bool) → Files → Files
restrict remaining files name = if remaining name then files name else none

-- `RemoveAll`, which removes what it can: after an error some of the files are gone.
unfoldable pub remove_all : Bytes → M (Unit {0})
remove_all dir =
    attempt_or (λ f. change dir (restrict f.remaining))
      (λ root. (ok tt, record root { dirs = remove dir root.dirs }))

abbrev pub in_dir : Bytes → (Files → Files) → M (Unit {0})
in_dir dir f root = (present (root.dirs dir), change dir f root)

-- `Create`, `Write` and `Sync` on a file of a directory
unfoldable pub create : Bytes → Bytes → M (Unit {0})
create dir name = attempt (in_dir dir (put name []))

unfoldable pub write : Bytes → Bytes → Bytes → M (Unit {0})
write dir name bytes =
    attempt_or (λ f. change dir (put name (take f.written bytes))) (in_dir dir (put name bytes))

unfoldable pub sync : M (Unit {0})
sync = attempt (done (ok tt))

abbrev move : Bytes → Bytes → Option Bytes → Files → Files
move from to none files = files
move from to (some bytes) files = put to bytes (remove from files)

-- `Rename` of a file that exists
unfoldable pub rename : Bytes → Bytes → Bytes → M (Unit {0})
rename dir from to = attempt (in_dir dir (λ files. move from to (files from) files))

abbrev pub file_of : Option Files → Bytes → Result StoreError Bytes
file_of none name = err not_exist
file_of (some files) name = elim (files name) [ none ↦ err not_exist | some bytes ↦ ok bytes ]

-- `ReadFile`, and `Open` followed by `io.ReadAll`
unfoldable pub read_file : Bytes → Bytes → M Bytes
read_file dir name = attempt (λ root. (file_of (root.dirs dir) name, root))

-- `fs.ReadDir`; the list is the order of the names.
unfoldable pub read_dir : Bytes → List Bytes → M (List Bytes)
read_dir dir names = attempt (done (ok names))
