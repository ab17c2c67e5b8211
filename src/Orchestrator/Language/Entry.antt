-- ===== src/Orchestrator/Language/Entry.antt =====
-- The script that the image of a Python submission starts.
use trade_plat.Common.{◌≡◌, refl, ap, inl, inr, List, [], ◌∷◌, ◌++◌, some, Bool-cases, All}
use trade_plat.Common.Text.{Name, codes}
use trade_plat.Orchestrator.Language.{
  Directory, Language, rust, go, python, cpp, all_files, contains, detect, target_script,
  entry_point,
}
use trade_plat.Orchestrator.Language.Priority.{
  Among, Somewhere, Named, HasRust, HasGo, TakenFor, contains-Reveals, detect-TakenFor,
}

abbrev pub HasScript : List Name → Type 0
HasScript = Among (Named (codes "sandbox_sdk.py"))

-- The walk comes to a directory with the script, and to none before it.
abbrev pub FirstAt : List Directory → List Name → Type 0
FirstAt ds path =
    (before : List Directory) × (d : Directory) × (rest : List Directory) × (ds
      ≡ before ++ d ∷ rest)
    × All (λ e. HasScript e.filenames → ⊥) before
    × HasScript d.filenames
    × (path ≡ d.root ++ codes "sandbox_sdk.py" ∷ [])

further :
    (d : Directory) (ds : List Directory) {path : List Name}
    → (HasScript d.filenames → ⊥)
    → FirstAt ds path
    → FirstAt (d ∷ ds) path
further d ds none_here (before, e, rest, split, clear, here, same_path) =
    (d ∷ before, e, rest, ap (λ xs. d ∷ xs) split, (none_here, clear), here, same_path)

target_script-FirstAt :
    (ds : List Directory)
    → Somewhere (Named (codes "sandbox_sdk.py")) ds
    → FirstAt ds (target_script ds)
unfolding target_script
target_script-FirstAt [] h = elim h [ ]
target_script-FirstAt (d ∷ ds) h =
    let reveals = contains-Reveals (codes "sandbox_sdk.py") d.filenames in
    elim (Bool-cases (contains (codes "sandbox_sdk.py") d.filenames)) [
      | inl e ↦
          let here = rw e at reveals in rw (e, target_script) ([], d, ds, refl, tt, here, refl)
      | inr e ↦
          let none_here = rw e at reveals in
          let later : FirstAt ds (target_script ds) = elim h [
            | inl here ↦ elim (none_here here) [ ]
            | inr there ↦ target_script-FirstAt ds there
          ] in
          rw (e, target_script) (further d ds none_here later)
    ]

python_taken :
    (ds : List Directory) (l : Language)
    → TakenFor ds l
    → (HasRust ds → ⊥)
    → (HasGo ds → ⊥)
    → Somewhere (Named (codes "sandbox_sdk.py")) ds
    → l ≡ python
python_taken ds rust h r g s = elim (r h) [ ]
python_taken ds go h r g s = elim (g h.1) [ ]
python_taken ds python h r g s = refl
python_taken ds cpp h r g s = elim (h.2 (inl (inr s))) [ ]

-- The image of a submission that has a `sandbox_sdk.py` and neither a Rust nor a Go file starts the
-- `sandbox_sdk.py` in the first directory of the walk that has one.
pub entry_point-FirstAt :
    (ds : List Directory)
    → (HasRust ds → ⊥)
    → (HasGo ds → ⊥)
    → Somewhere (Named (codes "sandbox_sdk.py")) ds
    → (path : List Name) × (entry_point ds ≡ some path) × FirstAt ds path
unfolding entry_point
entry_point-FirstAt ds r g s =
    let taken = python_taken ds (detect (all_files ds)) (detect-TakenFor ds) r g s in
    (target_script ds, rw (taken, entry_point) refl, target_script-FirstAt ds s)
