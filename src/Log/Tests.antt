-- ===== src/Log/Tests.antt =====
-- A log at the level WARN.
use watched_back.Base.{◌≡◌, refl, ◌⊎◌, ◌≢◌, [], All, true, none, some, arith, to_upper}
use watched_back.World.{World, returned}
use watched_back.Monad.{run}
use watched_back.TestEnv.{hosts_env}
use watched_back.Json.{Jsoncpp}
use watched_back.TestJson.{nothing, test_json}
use watched_back.Log.{Log, levels, element, level_of, line_text, write}
use watched_back.Log.Level.{level_of-element}
use watched_back.Log.Filter.{write-line_text}

-- JSON in which each value reads as the text of a level.
abbrev texts : Jsoncpp
texts = record test_json { as_string = λ v. returned "warn" }

abbrev warn_log : Log texts
warn_log = record { cfg = nothing; level = 2 }

abbrev silent : World
silent = record { trace = []; conn = λ p. none }

info_by_its_name :
    (element (level_of "info") levels ≡ returned (to_upper "info"))
    ⊎ (All (λ x. x ≢ to_upper "info") levels × (level_of "info" ≡ 3))
info_by_its_name = level_of-element "info"

unknown_is_notice : level_of "verbose" ≡ 3
unfolding level_of to_upper
unknown_is_notice = refl

write-line_text_example :
    run (write texts warn_log true "05-12-2017 10:00:00" 1 "main" "down") hosts_env silent ≡ (
      returned (
          some (record {
            in_file = true;
            text = line_text "05-12-2017 10:00:00" "ERROR" "main" "down";
          })),
      silent,
    )
write-line_text_example =
    write-line_text texts warn_log true "05-12-2017 10:00:00" 1 "main" "down" hosts_env silent
      (ground arith) (record { value = nothing; file = "warn"; item = refl; as_string = refl })
