-- ===== src/Tests/Configuring.antt =====
-- The configuration.
use ct_mapreduce.Prelude.{bytes, some, none, ◌≡◌}
use ct_mapreduce.Config.{Flags, Sources, init, first_some, numbers, init-numbers}

abbrev flags : Flags
flags = record { flag_offset = 0; flag_limit = 7; flag_output_refresh_period = bytes "125ms" }

abbrev sources : Sources
sources = record { lookup_env = λ key. some (bytes "12"); section = none }

init-numbers_example :
    ((init flags sources).offset ≡ first_some (numbers 0 (bytes "offset") sources))
    × ((init flags sources).limit ≡ first_some (numbers 7 (bytes "limit") sources))
init-numbers_example = init-numbers flags sources
