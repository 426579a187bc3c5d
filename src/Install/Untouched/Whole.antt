-- ===== src/Install/Untouched/Whole.antt =====
-- An update that runs as a whole leaves a file outside the directories of the programs alone.
use pastelup.Host.{Host}
use pastelup.Stop.Untouched.{Untouched}
use pastelup.Disk.{Disk}
