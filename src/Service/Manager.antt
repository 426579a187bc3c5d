-- ===== src/Service/Manager.antt =====
-- The interface `ServiceManager` of cmd/servicemanager.go and the manager that does nothing.
use pastelup.Base.{Str, Bool, false, [], Action, pure}
use pastelup.Constants.{ToolType}
use pastelup.Configs.{Config}

pub record ServiceManager (W : Type 0) : Type 0 where
  -- the flag is set for a masternode
  pub register_service : Config → ToolType → Bool → Action W (Unit {0})
  pub start_service : Config → ToolType → Action W Bool
  pub stop_service : Config → ToolType → Action W (Unit {0})
  pub enable_service : Config → ToolType → Action W (Unit {0})
  pub disable_service : Config → ToolType → Action W (Unit {0})
  pub remove_service : Config → ToolType → Action W (Unit {0})
  pub is_running : Config → ToolType → Action W Bool
  pub is_registered : Config → ToolType → Action W Bool
  pub service_name : ToolType → Str

-- `NoopManager`
unfoldable pub noop_manager : {W : Type 0} → ServiceManager W
noop_manager = record {
  register_service = λ config app is_mn. pure tt;
  start_service = λ config app. pure false;
  stop_service = λ config app. pure tt;
  enable_service = λ config app. pure tt;
  disable_service = λ config app. pure tt;
  remove_service = λ config app. pure tt;
  is_running = λ config app. pure false;
  is_registered = λ config app. pure false;
  service_name = λ app. [];
}
