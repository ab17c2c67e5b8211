-- ===== src/Orchestrator/Language.antt =====
-- infra/orchestrator.py: the template mapping of `auto_detect_and_build`. A name is the list of its
-- character codes; a step of `os.walk` is a directory, relative to the root, with its file names.
pub mod Priority
pub mod Entry
use Prim.Native.String.{String}
use trade_plat.Common.{
  ℕ, suc, ◌+◌, List, [], ◌∷◌, ◌++◌, Option, none, some, Bool, true, false, ◌&&◌, ◌||◌, ◌==◌,
  if◌then◌else◌,
}
use trade_plat.Common.Text.{Name, codes, same, ends_with}

pub record Directory : Type 0 where
  pub root : List Name
  pub filenames : List Name

pub data Language : Type 0 where
  rust go python cpp : Language

-- The first loop: the names of all files, without their directories.
unfoldable pub all_files : List Directory → List Name
all_files [] = []
all_files (d ∷ ds) = d.filenames ++ all_files ds

-- `name in files`
unfoldable pub contains : Name → List Name → Bool
contains name [] = false
contains name (f ∷ fs) = same name f || contains name fs

-- `any(f.endswith(suffix) for f in files)`
unfoldable pub any_ends_with : Name → List Name → Bool
any_ends_with suffix [] = false
any_ends_with suffix (f ∷ fs) = ends_with suffix f || any_ends_with suffix fs

-- The tests of the `if`, `elif` and `elif`.
unfoldable pub is_rust : List Name → Bool
is_rust fs = contains (codes "Cargo.toml") fs || any_ends_with (codes ".rs") fs

unfoldable pub is_go : List Name → Bool
is_go fs = contains (codes "go.mod") fs || any_ends_with (codes ".go") fs

unfoldable pub is_python : List Name → Bool
is_python fs =
    contains (codes "requirements.txt") fs
    || contains (codes "sandbox_sdk.py") fs
    || any_ends_with (codes ".py") fs

unfoldable pub detect : List Name → Language
detect fs =
    if is_rust fs then rust else (if is_go fs then go else (if is_python fs then python else cpp))

-- The second walk: the path of the first `sandbox_sdk.py`, relative to the root.
unfoldable pub target_script : List Directory → List Name
target_script [] = codes "sandbox_sdk.py" ∷ []
target_script (d ∷ ds) =
    if contains (codes "sandbox_sdk.py") d.filenames
    then d.root ++ codes "sandbox_sdk.py" ∷ []
    else target_script ds

-- The script that the ENTRYPOINT of the image names; the other images start a program that they
-- have compiled.
unfoldable pub entry_point : List Directory → Option (List Name)
entry_point ds = elim (detect (all_files ds)) [
  | python ↦ some (target_script ds)
  | rust ↦ none
  | go ↦ none
  | cpp ↦ none
]
