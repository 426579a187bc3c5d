-- ===== src/Examples/Updates.antt =====
-- An update of the node on the sample host.
use pastelup.Base.{Str, str, true, false, [], Option, none, some, Error, Out}
use pastelup.Constants.{linux, pasteld}
use pastelup.Configs.{Config}
use pastelup.Clear.{Entries, nil}
use pastelup.Disk.Sample.{with_file, moving_host, sample_disk}
use pastelup.Host.Sample.{World, empty_world}
use pastelup.Service.Manager.{noop_manager}
use pastelup.Update.{stop_and_update_service}
use pastelup.Examples.{sample_config}
use pastelup.Examples.Installs.{same_url, same_sum, no_templates, no_text, no_tar}

abbrev nothing_below : Str → World → Entries
nothing_below path w = nil

abbrev unchanged : Str → Entries → World → World
unchanged path es w = w

abbrev no_error : Str → Option Error
no_error path = none

abbrev installed_world : World
installed_world = with_file (str "w") (some []) (with_file (str "x") (some []) empty_world)

abbrev update_config : Config
update_config = record sample_config { op_mode = str "update" }

abbrev run : Out World (Unit {0})
run =
    stop_and_update_service moving_host linux nothing_below unchanged no_error no_error sample_disk
      same_url same_sum no_templates no_text (str "t") no_tar (noop_manager, none) true
      update_config pasteld true false true installed_world
