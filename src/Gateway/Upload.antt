-- ===== src/Gateway/Upload.antt =====
-- telemetry/api.py: `receive_submission`, over what the file system answers.
pub mod Staging
use trade_plat.Common.{List, [], ◌∷◌, ◌++◌, Bool, true, false, not, if◌then◌else◌}
use trade_plat.Common.Text.{Name, codes, ends_with}

-- The calls that take effect or are tried, on the directory of the contestant.
pub data Call : Type 0 where
  remove_tree make_directory write_archive extract_archive delete_archive launch_orchestrator : Call

-- The response, the HTTPException of a status, or another exception.
pub data Reply : Type 0 where
  queued bad_request internal_error unhandled : Reply

pub record Upload : Type 0 where
  pub filename : Name
  -- `os.path.exists(contestant_dir)` at the start and in the `except`
  pub staged_before : Bool
  pub staged_after : Bool
  -- whether each call returns
  pub old_removed : Bool
  pub directory_made : Bool
  pub archive_written : Bool
  pub archive_extracted : Bool
  pub archive_deleted : Bool
  pub staging_removed : Bool

pub record Handled : Type 0 where
  pub calls : List Call
  pub reply : Reply

abbrev pub handled : List Call → Reply → Handled
handled calls reply = record { calls = calls; reply = reply }

-- A call, and what follows where it returns or raises.
abbrev pub attempt : Call → Bool → Handled → Handled → Handled
attempt call true next failed = record next { calls = call ∷ next.calls }
attempt call false next failed = record failed { calls = call ∷ failed.calls }

-- `except Exception`
unfoldable pub recover : Upload → Handled
recover u =
    if u.staged_after
    then attempt remove_tree u.staging_removed (handled [] internal_error) (handled [] unhandled)
    else handled [] internal_error

-- The `try`.
unfoldable pub unpack_archive : Upload → Handled
unpack_archive u =
    attempt write_archive u.archive_written
      (attempt extract_archive u.archive_extracted
        (attempt delete_archive u.archive_deleted (handled (launch_orchestrator ∷ []) queued)
          (recover u))
        (recover u))
      (recover u)

unfoldable pub stage : Upload → Handled
stage u = attempt make_directory u.directory_made (unpack_archive u) (handled [] unhandled)

unfoldable pub receive_submission : Upload → Handled
receive_submission u =
    if not (ends_with (codes ".zip") u.filename)
    then handled [] bad_request
    else (if u.staged_before
        then attempt remove_tree u.old_removed (stage u) (handled [] unhandled)
        else stage u)
