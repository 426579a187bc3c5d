-- ===== src/Install/System.antt =====
-- cmd/install.go: what the installation changes in the system: Chrome, open ports and limits.
use pastelup.Base.{
  ℕ, Str, str, List, [], ◌∷◌, ◌++◌, none, some, Error, ◌⊎◌, Action, pure, fail, lift, attempt,
  perform, wrap_error, ◌>>=◌, ◌>>◌, if◌then◌else◌, decimal,
}
use pastelup.Path.{join}
use pastelup.Constants.{OsType, linux, get_version_sub_url, dd_service, tool_string}
use pastelup.Constants.Packages.{
  google_pub_key_url, google_ppa_source_list, ubuntu_source_list_path,
}
use pastelup.Configurer.{download_url}
use pastelup.Configs.{Config}
use pastelup.Host.{Host, run_sudo_cmd, sudo_or_fail}
use pastelup.Disk.{Disk, download_file}
use pastelup.Install.{is_install}

-- `GetChromeDownloadURL`, of the network and the version
unfoldable pub chrome_deb_name : Str
chrome_deb_name = str "google-chrome-stable.deb"

unfoldable pub get_chrome_download_url : Str → Str → Str
unfolding chrome_deb_name
get_chrome_download_url network version =
    download_url (get_version_sub_url network version) (tool_string dd_service) chrome_deb_name

module _ {W : Type 0} (host : Host W) (disk : Disk W) (os : OsType)
    (parse_url : Str → Error ⊎ Str) where
  -- `if _, err := RunCMD(...); err != nil { return err }`
  unfoldable pub run_or_fail : Str → List Str → Action W (Unit {0})
  run_or_fail command args = perform (host.run_cmd command args) >>= λ ran. elim ran.failure [
    | none ↦ pure tt
    | some e ↦ fail e
  ]

  -- `addGoogleRepo`
  unfoldable pub add_google_repo : Config → Action W (Unit {0})
  add_google_repo config = do
    run_or_fail (str "bash") (
        str "-c"
        ∷ (str "wget -q -O - " ++ (google_pub_key_url ++ str " > /tmp/google-key.pub"))
        ∷ [])
    sudo_or_fail host config (str "apt-key" ∷ str "add" ∷ str "/tmp/google-key.pub" ∷ [])
    run_or_fail (str "bash") (
        str "-c"
        ∷ (str "echo '" ++ (google_ppa_source_list ++ str "' | tee /tmp/google-chrome.list"))
        ∷ [])
    sudo_or_fail host config
        (str "mv" ∷ str "/tmp/google-chrome.list" ∷ ubuntu_source_list_path ∷ [])

  -- The part of `installOrUpdateChrome` for an installation
  unfoldable pub install_chrome : Config → Action W (Unit {0})
  install_chrome config = do
    add_google_repo config
    sudo_or_fail host config (str "apt" ∷ str "update" ∷ [])
    sudo_or_fail host config
        (str "apt" ∷ str "-y" ∷ str "install" ∷ str "google-chrome-stable" ∷ [])

  -- `installOrUpdateChrome`
  unfoldable pub install_or_update_chrome : Config → Action W (Unit {0})
  install_or_update_chrome config = do
    unpinned ←
        perform (
          run_sudo_cmd host config
            (str "apt-mark" ∷ str "unhold" ∷ str "google-chrome-stable" ∷ []))
    if is_install config then install_chrome config else pure tt
    url ←
        wrap_error "failed to get download url for google-chrome-stable.deb"
          (lift (parse_url (get_chrome_download_url config.network config.version)))
    let deb = join config.pastel_exec_dir chrome_deb_name
    download_file host disk os deb url
    sudo_or_fail host config (str "dpkg" ∷ str "-i" ∷ deb ∷ [])
    sudo_or_fail host config (str "apt-mark" ∷ str "hold" ∷ str "google-chrome-stable" ∷ [])

  -- The loop of `openPorts`: only on Linux is a port opened.
  unfoldable pub open_each : Config → List ℕ → Action W (Unit {0})
  open_each config [] = pure tt
  open_each config (port ∷ rest) = do
    elim os [
      | linux ↦ sudo_or_fail host config (str "ufw" ∷ str "allow" ∷ decimal port ∷ [])
      | _ ↦ pure tt
    ]
    open_each config rest

  -- `openPorts`: only for an installation
  unfoldable pub open_ports : Config → List ℕ → Action W (Unit {0})
  open_ports config ports = if is_install config then open_each config ports else pure tt

module _ {W : Type 0} (host : Host W) (disk : Disk W) where
  abbrev pub tmp_filename : Str
  tmp_filename = str "/tmp/tempfile"

  -- `writeToFile`: the new text is put together in a temporary file, to whose end it is added.
  unfoldable pub write_to_file : Config → Str → Str → Action W (Unit {0})
  write_to_file config filename content = do
    orig ← host.read_file filename
    disk.append_to tmp_filename orig
    disk.append_to tmp_filename (content ++ 10 ∷ [])
    sudo_or_fail host config (str "mv" ∷ tmp_filename ∷ filename ∷ [])

  -- `increaseOpenFilesOnLinux`: every failure is logged.
  unfoldable pub increase_open_files_on_linux : Config → Action W (Unit {0})
  increase_open_files_on_linux config = do
    let default_limit = str "DefaultLimitNOFILE=65536"
    first ← attempt (write_to_file config (str "/etc/sysctl.conf") (str "fs.file-max = 100000"))
    second ← attempt (
        write_to_file config (str "/etc/security/limits.conf")
          (str "* soft nofile 4096" ++ (10 ∷ str "* hard nofile 65535")))
    third ← attempt (write_to_file config (str "/etc/systemd/system.conf") default_limit)
    fourth ← attempt (write_to_file config (str "/etc/systemd/user.conf") default_limit)
    reloaded ← perform (run_sudo_cmd host config (str "systemctl" ∷ str "daemon-reload" ∷ []))
    applied ← perform (run_sudo_cmd host config (str "sysctl" ∷ str "-p" ∷ []))
    pure tt
