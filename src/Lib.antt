-- ===== src/Lib.antt =====
-- Pastelup: models of the tool that installs, starts, stops and updates the components of a Pastel
-- node, and theorems on them.
--
-- The program is a command line tool in Go. A command reads a configuration (configs/init.go), works
-- out names and places (constants/constants.go, configurer/configurer.go), and then drives the
-- operating system: it writes configuration files, registers units with systemd, starts and ends
-- processes, and talks to the RPC server of the local node.
--
-- How the files correspond to the code:
--   * Base and its children: Go strings as lists of bytes with what is used of the package
--     `strings`, `strconv.Atoi` and `Itoa` on a 64-bit `int`, and actions. An action runs on a state
--     of the host and ends with a value, an error or a panic, and with the state it left.
--   * Constants, Configurer, Configs, Path: the tables of names and ports, `GetVersionSubURL`,
--     `GetSNPortList`, the configurers with `GetDownloadURL`, and the fields of the configuration.
--   * Host: the interface to the operating system, the network and the node's RPC server, which all
--     theorems take as a parameter, with `RunSudoCMD` and `CheckFileExist` on top. Host/Sample is a
--     small host for examples.
--   * Prompt: `AskUserToContinue` of cmd/common.go.
--   * Masternode: masternode.conf (cmd/init.go): `createOrUpdateMasternodeConf`,
--     `writeMasterNodeConfFile`, `backupMasterNodeConfFile`, `loadMasternodeConfFile`,
--     `getMasternodeConfData`. The children have addresses and the round trip.
--   * PastelConf: pastel.conf: `ParsePastelConf` and `getNetworkModeFromRemote` of cmd/common.go and
--     `updatePastelConfigFile` of cmd/install.go. The children have the lines of a file, the choice
--     of the network, and the round trip.
--   * Service: cmd/servicemanager.go and cmd/systemServicesHelper.go: the interface of a service
--     manager, the manager that does nothing, the one of systemd, and the commands that install and
--     remove services. Service/Systemd states the documented behaviour of systemctl as laws on the
--     host; Service/Install/Active takes a manager by its laws alone, and Service/Linux shows that
--     the manager of Linux has them.
--   * Node: cmd/common.go: finding and ending processes, `GetPastelInfo`, the waits for the node.
--   * Stop: cmd/stop.go: `stopServices`, `stopServicesWithConfirmation`, `stopPatelCLI` and the lists
--     of services. Stop/Services takes a manager by its laws; Stop/Systemd shows that the manager of
--     Linux has them.
--   * Start: cmd/start.go: the start of rq-service, dd-service, its image server and walletnode as
--     services or processes (`runPastelService`), and `checkStartMasterNodeParams`. Start/Pasteld:
--     `runPastelNode` and `runStartMasternode` with `CheckZksnarkParams` of cmd/common.go and
--     `GetChecksum` of utils/utils.go. Start/Supernode: `runSuperNodeService` and
--     `runHermesService`.
--   * Disk: utils/utils.go over an interface to the calls of Go's library for files, HTTP and ZIP
--     archives: `CreateFolder`, `CreateFile`, `GenerateRandomString`, `DownloadFile`, `CopyFile`,
--     `GetInstalledPackages`, and `Unzip` (Disk/Unzip), with `filepath.Join` and `Clean`
--     written out in Disk/Clean. Disk/Resolved has the form of the paths that these make, and
--     Disk/Sample a small disk for examples.
--   * Install: cmd/install.go: `runServicesInstall` (Install/Services) and what it calls:
--     `getDefaultRPCParameters` and `checkInstallDir` in the file itself, Install/Packages
--     (`checkInstalledPackages`), Install/Files (`downloadComponents`, `downloadZksnarkParams`,
--     `setupBasePastelWorkingEnvironment`), Install/Texts (`GetSNConfigs` and
--     `GetHermesConfigs` of cmd/configs.go), Install/Components (one function per component),
--     Install/Snapshot, Install/System (Chrome, ports, limits) and Install/SevenZip. Install/Frame
--     and Install/Untouched follow what these steps leave alone.
--   * Update: cmd/update.go: `stopAndUpdateService`, `backUpWorkDir` and the commands. Update/Order
--     has the steps of an update that succeeds.
--   * Archive: cmd/update.go: `backUpDir`, `deleteOldArchives`, `backUpDDDir`. Archive/Saved has what
--     a backup has copied.
--   * Clear: utils/utils.go: `ClearDir` on a tree of files.
--   * Remote: cmd/common.go: the session with a remote host (`prepareRemoteSession`,
--     `executeRemoteCommands`, `checkHotAndColdNodesNetworkMode`) over an interface to the ssh
--     client of utils/sshclient.go. Remote/Inventory: cmd/inventory.go, `ReadAnsibleYamlInventory`
--     and `ExecuteCommands`. Remote/Commands: the commands that pastelup runs for itself on the
--     host (`runRemoteStart`, `runRemoteStop`, `runRemoteUpdate`, `runRemoteInstall`,
--     `runRemoteUninstall`, `installOrRemoveSystemServiceRemote`). Remote/Sessions counts the open
--     sessions.
--   * Uninstall: cmd/uninstall.go: the removal of each component. Uninstall/Keeps and Stop/Untouched
--     say what it leaves alone.
--   * Distance: common/utils/utils.go and common/utils/heap.go: the closest strings by XOR distance
--     (`GetNClosestXORDistanceStringToAGivenComparisonString`), over an interface to the package
--     `container/heap` with its documented laws. Distance/Sample has a heap that fulfils them.
--   * Examples: runs of the theorems on concrete input.
--
-- Fuel: the waits of Node are loops that a node can prolong for ever, so `waiting_for_pasteld_to_start`
-- and `check_master_node_sync` take fuel, and none is the result when it is used up. The two results
-- on the former say which fuel is enough for an answer. `run_pastel_node` and
-- `run_start_masternode` pass it on to the former.
--
-- Not modelled: log lines, the definition of the command line and its flags, the terminal's
-- colours, the parallel run over an inventory, the ssh client, the other start commands, the
-- commands for inference, the texts of the YAML templates, the information commands, the generated
-- protocol code, and tests and docker files. `encoding/json`, `text/template`, `net/url`,
-- `net/http`, `archive/zip`, `archive/tar`, `crypto/sha256`, SHA-3, `container/heap` and the YAML
-- library are parameters. Text is compared byte by byte, and space and letter case are those of
-- ASCII. The separator of paths is `/`.
pub mod Base
pub mod Constants
pub mod Path
pub mod Configurer
pub mod Configs
pub mod Host
pub mod Prompt
pub mod Masternode
pub mod Service
pub mod PastelConf
pub mod Node
pub mod Stop
pub mod Archive
pub mod Clear
pub mod Start
pub mod Disk
pub mod Install
pub mod Update
pub mod Remote
pub mod Uninstall
pub mod Examples
pub mod Distance
