-- ===== src/Gateway/Upload/Staging.antt =====
-- What an upload leaves in the staging directory, and when it starts an evaluation.
use trade_plat.Common.{
  ℕ, ◌+◌, ◌≡◌, ◌∙◌, ◌⊎◌, refl, inl, inr, List, [], ◌∷◌, Option, none, some, Bool, true, false, not,
  if◌then◌else◌, arith,
}
use trade_plat.Common.Text.{codes, ends_with}
use trade_plat.Gateway.Upload.{
  Call, remove_tree, make_directory, write_archive, extract_archive, delete_archive,
  launch_orchestrator, Reply, queued, bad_request, internal_error, unhandled, Upload, Handled,
  handled, attempt, recover, unpack_archive, stage, receive_submission,
}

abbrev pub launches : List Call → ℕ
launches [] = 0
launches (launch_orchestrator ∷ cs) = 1 + launches cs
launches (_ ∷ cs) = launches cs

abbrev pub last_call : List Call → Option Call
last_call [] = none
last_call (c ∷ []) = some c
last_call (c ∷ d ∷ cs) = last_call (d ∷ cs)

-- What a reply says of the calls; `staged_after` tells whether the directory was there when the
-- reply was decided.
abbrev pub Settled : (staged_after : Bool) → Reply → List Call → Type 0
Settled staged_after queued cs = (launches cs ≡ 1) × (last_call cs ≡ some launch_orchestrator)
Settled staged_after bad_request cs = cs ≡ []
Settled staged_after internal_error cs =
    (launches cs ≡ 0) × ((staged_after ≡ false) ⊎ (last_call cs ≡ some remove_tree))
Settled staged_after unhandled cs = launches cs ≡ 0

-- The same behind the check of the name.
abbrev Inner : Bool → Reply → List Call → Type 0
Inner after bad_request cs = ⊥
Inner after queued cs = Settled after queued cs
Inner after internal_error cs = Settled after internal_error cs
Inner after unhandled cs = Settled after unhandled cs

Inner-Settled : (after : Bool) (r : Reply) (cs : List Call) → Inner after r cs → Settled after r cs
Inner-Settled after bad_request cs h = elim h [ ]
Inner-Settled after queued cs h = h
Inner-Settled after internal_error cs h = h
Inner-Settled after unhandled cs h = h

launches-cons :
    (c : Call) (cs : List Call) → launches (c ∷ []) ≡ 0 → launches (c ∷ cs) ≡ launches cs
launches-cons launch_orchestrator cs h = ground arith
launches-cons remove_tree cs h = refl
launches-cons make_directory cs h = refl
launches-cons write_archive cs h = refl
launches-cons extract_archive cs h = refl
launches-cons delete_archive cs h = refl

last_call-cons : (c d : Call) (cs : List Call) → last_call cs ≡ some d → last_call (c ∷ cs) ≡ some d
last_call-cons c d [] h = ground arith
last_call-cons c d (e ∷ cs) h = h

cons-Inner :
    (after : Bool) (c : Call) (r : Reply) (cs : List Call)
    → launches (c ∷ []) ≡ 0
    → Inner after r cs
    → Inner after r (c ∷ cs)
cons-Inner after c bad_request cs n h = h
cons-Inner after c queued cs n (h, g) =
    (launches-cons c cs n ∙ h, last_call-cons c launch_orchestrator cs g)
cons-Inner after c unhandled cs n h = launches-cons c cs n ∙ h
cons-Inner after c internal_error cs n (h, g) = (
  launches-cons c cs n ∙ h,
  elim g [ inl gone ↦ inl gone | inr e ↦ inr (last_call-cons c remove_tree cs e) ],
)

attempt-Inner :
    (after : Bool) (c : Call) (b : Bool) (next failed : Handled)
    → launches (c ∷ []) ≡ 0
    → Inner after next.reply next.calls
    → Inner after failed.reply failed.calls
    → Inner after (attempt c b next failed).reply (attempt c b next failed).calls
attempt-Inner after c true next failed n h g = cons-Inner after c next.reply next.calls n h
attempt-Inner after c false next failed n h g = cons-Inner after c failed.reply failed.calls n g

recover_flags :
    (after removed : Bool)
    → let r : Handled =
        if after
        then attempt remove_tree removed (handled [] internal_error) (handled [] unhandled)
        else handled [] internal_error in
      Inner after r.reply r.calls
recover_flags true true = (refl, inr refl)
recover_flags true false = refl
recover_flags false removed = (refl, inl refl)

recover-Inner : (u : Upload) → Inner u.staged_after (recover u).reply (recover u).calls
unfolding recover
recover-Inner u = recover_flags u.staged_after u.staging_removed

stage-Inner : (u : Upload) → Inner u.staged_after (stage u).reply (stage u).calls
unfolding stage unpack_archive
stage-Inner u =
    attempt-Inner u.staged_after make_directory u.directory_made (unpack_archive u)
      (handled [] unhandled) refl
      (attempt-Inner u.staged_after write_archive u.archive_written _ (recover u) refl
        (attempt-Inner u.staged_after extract_archive u.archive_extracted _ (recover u) refl
          (attempt-Inner u.staged_after delete_archive u.archive_deleted
            (handled (launch_orchestrator ∷ []) queued) (recover u) refl (refl, refl)
            (recover-Inner u))
          (recover-Inner u))
        (recover-Inner u))
      refl

receive-Settled :
    (u : Upload) (zip before : Bool)
    → let r : Handled =
        if not zip
        then handled [] bad_request
        else (if before
            then attempt remove_tree u.old_removed (stage u) (handled [] unhandled)
            else stage u) in
      Settled u.staged_after r.reply r.calls
receive-Settled u false before = refl
receive-Settled u true false =
    Inner-Settled u.staged_after (stage u).reply (stage u).calls (stage-Inner u)
receive-Settled u true true = Inner-Settled u.staged_after _ _ (
    attempt-Inner u.staged_after remove_tree u.old_removed (stage u) (handled [] unhandled) refl
      (stage-Inner u) refl)

-- An upload that is queued has started exactly one evaluation, as its last call. One that is
-- refused for its name has touched nothing. One that answers 500 has started none and has removed
-- the staged files last, unless they were gone. One that ends in another exception has started
-- none.
pub receive_submission-Settled :
    (u : Upload) → Settled u.staged_after (receive_submission u).reply (receive_submission u).calls
unfolding receive_submission
receive_submission-Settled u =
    receive-Settled u (ends_with (codes ".zip") u.filename) u.staged_before
