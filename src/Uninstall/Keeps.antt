-- ===== src/Uninstall/Keeps.antt =====
-- What the removal of a component without the flag for its data leaves alone.
use pastelup.Base.{
  Str, true, false, List, [], ◌∷◌, Option, Error, Action, ◌>>◌, has_prefix, differs_prefix, ◌≡◌,
  ◌≢◌, All, Keeps, bind-Keeps, then-Keeps, attempt-Keeps, if-Keeps, pure-Keeps,
}
use pastelup.Path.{join, not_below}
use pastelup.Constants.{OsType, ToolType, dupe_detection_sub_folder}
use pastelup.Configs.{Config}
use pastelup.Host.{Host}
use pastelup.Prompt.{ask_user_to_continue, ask_user_to_continue-Keeps}
use pastelup.Service.Manager.{ServiceManager}
use pastelup.Stop.{stop_services}
use pastelup.Stop.Untouched.{Untouched, stop_services-Keeps}
use pastelup.Uninstall.{
  remove_file, remove_dir, remove_files, ask_to_continue, uninstall, run_uninstall_node,
  run_uninstall_wallet_node, run_uninstall_super_node, run_uninstall_rq_service,
  run_uninstall_dd_service, run_uninstall_wallet_node_service, run_uninstall_super_node_service,
  run_uninstall_hermes_service,
}

-- What the calls leave of the files at `p`, a condition on the state: a removal of another path and
-- of what is below another path, and a question, keep it.
pub record Removals {W : Type 0} (host : Host W) (p : Str) (P : W → Type 0) : Type 0 where
  pub remove_lem : (q : Str) → p ≢ q → Keeps P (host.remove q)
  pub remove_all_lem : (q : Str) → has_prefix p q ≡ false → Keeps P (host.remove_all q)
  pub read_line_lem : (q : Str) (w : W) → P w → P (host.read_line q w).1

module _ {W : Type 0} (host : Host W) (os : OsType) (p : Str) (P : W → Type 0)
    (laws : Removals host p P) (dir : Str) (outside : has_prefix p dir ≡ false) where
  remove_file-Keeps : (name : Str) → Keeps P (remove_file host os dir name)
  unfolding remove_file
  remove_file-Keeps name =
      then-Keeps P _ _
        (attempt-Keeps P _ (
          laws.remove_lem (join dir name)
            (differs_prefix p (join dir name) (not_below p dir name outside))))
        (pure-Keeps P tt)

  remove_dir-Keeps : (name : Str) → Keeps P (remove_dir host os dir name)
  unfolding remove_dir
  remove_dir-Keeps name =
      then-Keeps P _ _
        (attempt-Keeps P _ (laws.remove_all_lem (join dir name) (not_below p dir name outside)))
        (pure-Keeps P tt)

  remove_files-Keeps : (names : List Str) → Keeps P (remove_files host os dir names)
  unfolding remove_files
  remove_files-Keeps [] = pure-Keeps P tt
  remove_files-Keeps (name ∷ rest) =
      then-Keeps P _ _ (remove_file-Keeps name) (remove_files-Keeps rest)

  ask-Keeps : (question : Str) → Keeps P (ask_user_to_continue host question)
  ask-Keeps question = ask_user_to_continue-Keeps host P question (laws.read_line_lem question)

  ask_to_continue-Keeps :
      (config : Config) (what : Str) → Keeps P (ask_to_continue host os config what)
  unfolding ask_to_continue
  ask_to_continue-Keeps config what =
      if-Keeps P config.force _ _ (pure-Keeps P true)
        (bind-Keeps P _ _ (ask-Keeps _) (λ answer. pure-Keeps P answer.0))

  uninstall-Keeps :
      (config : Config) (what : Str) (program : Action W (Unit {0})) (all : Str)
      (what_else : Action W (Unit {0}))
      → Keeps P program
      → Keeps P (uninstall host os config false what program all what_else)
  unfolding uninstall
  uninstall-Keeps config what program all what_else kept =
      bind-Keeps P _ _ (ask_to_continue-Keeps config what) (λ agreed.
        if-Keeps P agreed _ _ (then-Keeps P _ _ kept (pure-Keeps P tt)) (pure-Keeps P tt))

module _ {W : Type 0} (host : Host W) (os : OsType) (sm : ServiceManager W) (p : Str)
    (P : W → Type 0) (removals : Removals host p P) (quiet : Untouched host sm P)
    (unsupported : Option Error) (config : Config)
    (outside : has_prefix p config.pastel_exec_dir ≡ false) where
  abbrev dir : Str
  dir = config.pastel_exec_dir

  stopped_then-Keeps :
      (tools : List ToolType) (what all : Str) (program what_else : Action W (Unit {0}))
      → Keeps P program
      → Keeps P (
          uninstall host os config false what
            (stop_services host os (sm, unsupported) config tools >> program)
            all
            what_else)
  stopped_then-Keeps tools what all program what_else kept =
      uninstall-Keeps host os p P removals dir outside config what _ all what_else
        (then-Keeps P _ _ (stop_services-Keeps host os sm P quiet unsupported config tools) kept)

  without_files-Keeps :
      (tools : List ToolType) (what all : Str) (names : List Str) (what_else : Action W (Unit {0}))
      → Keeps P (
          uninstall host os config false what
            (stop_services host os (sm, unsupported) config tools >> remove_files host os dir names)
            all
            what_else)
  without_files-Keeps tools what all names what_else =
      stopped_then-Keeps tools what all _ what_else
        (remove_files-Keeps host os p P removals dir outside names)

  without_file-Keeps :
      (tools : List ToolType) (what all : Str) (name : Str) (what_else : Action W (Unit {0}))
      → Keeps P (
          uninstall host os config false what
            (stop_services host os (sm, unsupported) config tools >> remove_file host os dir name)
            all
            what_else)
  without_file-Keeps tools what all name what_else =
      stopped_then-Keeps tools what all _ what_else
        (remove_file-Keeps host os p P removals dir outside name)

-- Without the flag, no command that removes a component changes anything at a path that does not
-- begin with the directory of the programs, if the calls that it makes keep what is at other paths
-- than they name, and a stop of services keeps it.
pub run_uninstall-Keeps :
    {W : Type 0} (host : Host W) (os : OsType) (sm : ServiceManager W) (p : Str) (P : W → Type 0)
    (removals : Removals host p P) (quiet : Untouched host sm P) (unsupported : Option Error)
    (config : Config)
    → has_prefix p config.pastel_exec_dir ≡ false
    → All (Keeps P {A = Unit {0}}) (
        run_uninstall_node host os (sm, unsupported) config false
        ∷ run_uninstall_wallet_node host os (sm, unsupported) config false
        ∷ run_uninstall_super_node host os (sm, unsupported) config false
        ∷ run_uninstall_rq_service host os (sm, unsupported) config false
        ∷ run_uninstall_dd_service host os (sm, unsupported) config false
        ∷ run_uninstall_wallet_node_service host os (sm, unsupported) config false
        ∷ run_uninstall_super_node_service host os (sm, unsupported) config false
        ∷ run_uninstall_hermes_service host os (sm, unsupported) config false
        ∷ [])
unfolding run_uninstall_node run_uninstall_wallet_node run_uninstall_super_node
    run_uninstall_rq_service run_uninstall_dd_service run_uninstall_wallet_node_service
    run_uninstall_super_node_service run_uninstall_hermes_service
run_uninstall-Keeps host os sm p P removals quiet unsupported config outside = (
  without_files-Keeps host os sm p P removals quiet unsupported config outside _ _ _ _ _,
  (
    without_files-Keeps host os sm p P removals quiet unsupported config outside _ _ _ _ _,
    (
      bind-Keeps P _ _ (ask-Keeps host os p P removals config.pastel_exec_dir outside _) (λ answer.
          if-Keeps P answer.0 _ _
            (stopped_then-Keeps host os sm p P removals quiet unsupported config outside _ _ _ _ _ (
              then-Keeps P _ _
                (remove_files-Keeps host os p P removals config.pastel_exec_dir outside _)
                (remove_dir-Keeps host os p P removals config.pastel_exec_dir outside
                  dupe_detection_sub_folder)))
            (pure-Keeps P tt)),
      (
        without_file-Keeps host os sm p P removals quiet unsupported config outside _ _ _ _ _,
        (
          stopped_then-Keeps host os sm p P removals quiet unsupported config outside _ _ _ _ _ (
              remove_dir-Keeps host os p P removals config.pastel_exec_dir outside
                dupe_detection_sub_folder),
          (
            without_file-Keeps host os sm p P removals quiet unsupported config outside _ _ _ _ _,
            (
              without_file-Keeps host os sm p P removals quiet unsupported config outside _ _ _ _ _,
              (
                without_file-Keeps host os sm p P removals quiet unsupported config outside _ _ _ _
                    _,
                tt,
              ),
            ),
          ),
        ),
      ),
    ),
  ),
)
