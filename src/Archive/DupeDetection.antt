-- ===== src/Archive/DupeDetection.antt =====
-- What the backup of the dupe detection directory copies.
use pastelup.Base.{Str, Action, ◌≡◌, refl}
use pastelup.Configs.{Config}
use pastelup.Host.{Host, check_file_exist}
use pastelup.Archive.{
  back_up_dd_dir, back_up_dir, copy_to_archive, copy_sub_dir, copy_existing, delete_old_archives,
  remove_each,
}

module _ {W : Type 0} (host : Host W) where
  -- The backup of the dupe detection directory copies nothing: it runs in the same way whatever
  -- copying a file does.
  pub back_up_dd_dir-copies_nothing :
      (copy : Str → Str → Action W (Unit {0})) (config : Config) (home_dir : Str) (w : W)
      → back_up_dd_dir (record host { copy = copy }) config home_dir w
        ≡ back_up_dd_dir host config home_dir w
  unfolding back_up_dd_dir back_up_dir copy_to_archive copy_sub_dir copy_existing
      delete_old_archives remove_each check_file_exist
  back_up_dd_dir-copies_nothing copy config home_dir w = refl
