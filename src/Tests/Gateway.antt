-- ===== src/Tests/Gateway.antt =====
-- telemetry/api.py on one upload and one stream.
use trade_plat.Common.{refl, List, [], ◌∷◌, ◌++◌, true, false}
use trade_plat.Common.Text.{codes}
use trade_plat.Gateway.Upload.{Upload, receive_submission}
use trade_plat.Gateway.Upload.Staging.{Settled, receive_submission-Settled}
use trade_plat.Gateway.Stream.{Turn, send_event, turn_round, turn_rounds, leaderboard_stream}
use trade_plat.Gateway.Stream.Freshness.{Fresh, leaderboard_stream-Fresh}

-- An archive that cannot be extracted, over an earlier upload.
abbrev broken : Upload
broken = record {
  filename = codes "bot.zip";
  staged_before = true;
  staged_after = true;
  old_removed = true;
  directory_made = true;
  archive_written = true;
  archive_extracted = false;
  archive_deleted = true;
  staging_removed = true;
}

receive_submission-Settled_example :
    Settled broken.staged_after (receive_submission broken).reply (receive_submission broken).calls
receive_submission-Settled_example = receive_submission-Settled broken

-- A message after one second, then a quiet turn at seven seconds.
abbrev busy : List Turn
busy = record { polled = true; message = true; now = 1_000_000_000; leaderboard_read = true } ∷ []

abbrev quiet : Turn
quiet = record { polled = true; message = false; now = 7_000_000_000; leaderboard_read = true }

leaderboard_stream-Fresh_example : Fresh 0 quiet (leaderboard_stream 0 true (busy ++ quiet ∷ []))
unfolding leaderboard_stream turn_rounds turn_round send_event
leaderboard_stream-Fresh_example = leaderboard_stream-Fresh 0 true busy quiet refl
