-- ===== src/Orchestrator/Language/Priority.antt =====
-- Which language a submission is taken for, and which script its image starts.
use trade_plat.Common.{
  ◌≡◌, ◌∙◌, refl, sym, ap, ◌⊎◌, List, [], ◌∷◌, ◌++◌, Bool, true, false, ◌||◌, if◌then◌else◌,
  Reveals, Reveals-test, Reveals-or,
}
use trade_plat.Common.Text.{Name, codes, same, ends_with}
use trade_plat.Orchestrator.Language.{
  Directory, Language, rust, go, python, cpp, all_files, contains, any_ends_with, is_rust, is_go,
  is_python, detect,
}

-- Some name of the list, and some file of the submission.
abbrev pub Among : (Name → Type 0) → List Name → Type 0
Among P [] = ⊥
Among P (f ∷ fs) = P f ⊎ Among P fs

abbrev pub Somewhere : (Name → Type 0) → List Directory → Type 0
Somewhere P [] = ⊥
Somewhere P (d ∷ ds) = Among P d.filenames ⊎ Somewhere P ds

abbrev pub Named : Name → Name → Type 0
Named name f = same name f ≡ true

abbrev pub Suffixed : Name → Name → Type 0
Suffixed suffix f = ends_with suffix f ≡ true

-- What a submission has that makes it one of a language.
abbrev pub HasRust : List Directory → Type 0
HasRust ds = Somewhere (Named (codes "Cargo.toml")) ds ⊎ Somewhere (Suffixed (codes ".rs")) ds

abbrev pub HasGo : List Directory → Type 0
HasGo ds = Somewhere (Named (codes "go.mod")) ds ⊎ Somewhere (Suffixed (codes ".go")) ds

abbrev pub HasPython : List Directory → Type 0
HasPython ds =
    (Somewhere (Named (codes "requirements.txt")) ds
      ⊎ Somewhere (Named (codes "sandbox_sdk.py")) ds)
    ⊎ Somewhere (Suffixed (codes ".py")) ds

pub contains-Reveals :
    (name : Name) (fs : List Name) → Reveals (contains name fs) (Among (Named name) fs)
unfolding contains
contains-Reveals name [] = λ h. h
contains-Reveals name (f ∷ fs) =
    Reveals-or (same name f) (contains name fs) (Named name f) (Among (Named name) fs)
      (Reveals-test (same name f)) (contains-Reveals name fs)

any_ends_with-Reveals :
    (suffix : Name) (fs : List Name)
    → Reveals (any_ends_with suffix fs) (Among (Suffixed suffix) fs)
unfolding any_ends_with
any_ends_with-Reveals suffix [] = λ h. h
any_ends_with-Reveals suffix (f ∷ fs) =
    Reveals-or (ends_with suffix f) (any_ends_with suffix fs) (Suffixed suffix f)
      (Among (Suffixed suffix) fs) (Reveals-test (ends_with suffix f))
      (any_ends_with-Reveals suffix fs)

or_assoc : (a b c : Bool) → ((a || b) || c) ≡ (a || (b || c))
or_assoc true b c = refl
or_assoc false b c = refl

contains-append :
    (name : Name) (xs ys : List Name)
    → contains name (xs ++ ys) ≡ (contains name xs || contains name ys)
unfolding contains
contains-append name [] ys = refl
contains-append name (x ∷ xs) ys =
    ap (λ b. same name x || b) (contains-append name xs ys)
    ∙ sym (or_assoc (same name x) (contains name xs) (contains name ys))

any_ends_with-append :
    (suffix : Name) (xs ys : List Name)
    → any_ends_with suffix (xs ++ ys) ≡ (any_ends_with suffix xs || any_ends_with suffix ys)
unfolding any_ends_with
any_ends_with-append suffix [] ys = refl
any_ends_with-append suffix (x ∷ xs) ys =
    ap (λ b. ends_with suffix x || b) (any_ends_with-append suffix xs ys)
    ∙ sym (or_assoc (ends_with suffix x) (any_ends_with suffix xs) (any_ends_with suffix ys))

contains-Somewhere :
    (name : Name) (ds : List Directory)
    → Reveals (contains name (all_files ds)) (Somewhere (Named name) ds)
unfolding all_files contains
contains-Somewhere name [] = λ h. h
contains-Somewhere name (d ∷ ds) = rw (contains-append name d.filenames (all_files ds)) (
    Reveals-or (contains name d.filenames) (contains name (all_files ds))
      (Among (Named name) d.filenames) (Somewhere (Named name) ds)
      (contains-Reveals name d.filenames) (contains-Somewhere name ds))

any_ends_with-Somewhere :
    (suffix : Name) (ds : List Directory)
    → Reveals (any_ends_with suffix (all_files ds)) (Somewhere (Suffixed suffix) ds)
unfolding all_files any_ends_with
any_ends_with-Somewhere suffix [] = λ h. h
any_ends_with-Somewhere suffix (d ∷ ds) =
    rw (any_ends_with-append suffix d.filenames (all_files ds)) (
      Reveals-or (any_ends_with suffix d.filenames) (any_ends_with suffix (all_files ds))
        (Among (Suffixed suffix) d.filenames) (Somewhere (Suffixed suffix) ds)
        (any_ends_with-Reveals suffix d.filenames) (any_ends_with-Somewhere suffix ds))

is_rust-HasRust : (ds : List Directory) → Reveals (is_rust (all_files ds)) (HasRust ds)
unfolding is_rust
is_rust-HasRust ds =
    Reveals-or _ _ (Somewhere (Named (codes "Cargo.toml")) ds)
      (Somewhere (Suffixed (codes ".rs")) ds) (contains-Somewhere (codes "Cargo.toml") ds)
      (any_ends_with-Somewhere (codes ".rs") ds)

is_go-HasGo : (ds : List Directory) → Reveals (is_go (all_files ds)) (HasGo ds)
unfolding is_go
is_go-HasGo ds =
    Reveals-or _ _ (Somewhere (Named (codes "go.mod")) ds) (Somewhere (Suffixed (codes ".go")) ds)
      (contains-Somewhere (codes "go.mod") ds) (any_ends_with-Somewhere (codes ".go") ds)

is_python-HasPython : (ds : List Directory) → Reveals (is_python (all_files ds)) (HasPython ds)
unfolding is_python
is_python-HasPython ds =
    Reveals-or _ _
      (Somewhere (Named (codes "requirements.txt")) ds
        ⊎ Somewhere (Named (codes "sandbox_sdk.py")) ds)
      (Somewhere (Suffixed (codes ".py")) ds)
      (Reveals-or _ _ (Somewhere (Named (codes "requirements.txt")) ds)
        (Somewhere (Named (codes "sandbox_sdk.py")) ds)
        (contains-Somewhere (codes "requirements.txt") ds)
        (contains-Somewhere (codes "sandbox_sdk.py") ds))
      (any_ends_with-Somewhere (codes ".py") ds)

-- When a submission is taken for one of a language.
abbrev pub TakenFor : List Directory → Language → Type 0
TakenFor ds rust = HasRust ds
TakenFor ds go = (HasRust ds → ⊥) × HasGo ds
TakenFor ds python = (HasRust ds → ⊥) × (HasGo ds → ⊥) × HasPython ds
TakenFor ds cpp = (HasRust ds → ⊥) × (HasGo ds → ⊥) × (HasPython ds → ⊥)

detected :
    (ds : List Directory) (a b c : Bool)
    → Reveals a (HasRust ds)
    → Reveals b (HasGo ds)
    → Reveals c (HasPython ds)
    → TakenFor ds (if a then rust else (if b then go else (if c then python else cpp)))
detected ds true b c p q r = p
detected ds false true c p q r = (p, q)
detected ds false false true p q r = (p, q, r)
detected ds false false false p q r = (p, q, r)

pub detect-TakenFor : (ds : List Directory) → TakenFor ds (detect (all_files ds))
unfolding detect
detect-TakenFor ds =
    detected ds (is_rust (all_files ds)) (is_go (all_files ds)) (is_python (all_files ds))
      (is_rust-HasRust ds) (is_go-HasGo ds) (is_python-HasPython ds)
