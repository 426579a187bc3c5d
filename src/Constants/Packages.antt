-- ===== src/Constants/Packages.antt =====
-- constants/constants.go: what the installation needs: directories, the packages of each tool, the
-- files of the dupe detection, and addresses.
use pastelup.Base.{ℕ, Str, str, List, [], ◌∷◌, if◌then◌else◌, str_eq}
use pastelup.Path.{join}
use pastelup.Constants.{
  OsType, linux, ToolType, wallet_node, super_node, pasteld, dd_service, network_regtest,
  network_testnet, network_devnet, network_mainnet, dupe_detection_support_file_path,
}

abbrev pub rq_service_dir : Str
rq_service_dir = str "rqfiles"

abbrev pub p2p_data_dir : Str
p2p_data_dir = str "p2pdata"

abbrev pub mdl_data_dir : Str
mdl_data_dir = str "mdldata"

abbrev pub temp_dir : Str
temp_dir = str "tmp"

abbrev pub rq_service_default_port : ℕ
rq_service_default_port = 50051

abbrev pub bridge_service_default_port : ℕ
bridge_service_default_port = 60061

abbrev pub dd_server_default_port : ℕ
dd_server_default_port = 50052

abbrev pub burn_address_devnet : Str
burn_address_devnet = str "44oUgmZSL997veFEQDq569wv5tsT6KXf9QY7"

abbrev pub burn_address_testnet : Str
burn_address_testnet = str "tPpasteLBurnAddressXXXXXXXXXXX3wy7u"

abbrev pub burn_address_mainnet : Str
burn_address_mainnet = str "PtpasteLBurnAddressXXXXXXXXXXbJ5ndd"

abbrev pub pip_requirments_file_name : Str
pip_requirments_file_name = str "requirements.txt"

abbrev pub google_pub_key_url : Str
google_pub_key_url = str "https://dl-ssl.google.com/linux/linux_signing_key.pub"

abbrev pub google_ppa_source_list : Str
google_ppa_source_list = str "deb [arch=amd64] http://dl.google.com/linux/chrome/deb/ stable main"

abbrev pub ubuntu_source_list_path : Str
ubuntu_source_list_path = str "/etc/apt/sources.list.d"

abbrev pub network_modes : List Str
network_modes = network_mainnet ∷ network_testnet ∷ network_devnet ∷ network_regtest ∷ []

-- `DependenciesPackages`: a tool or a system that is missing from the map has none.
unfoldable pub dependencies_packages : ToolType → OsType → List Str
dependencies_packages pasteld linux = str "libgomp1" ∷ []
dependencies_packages wallet_node linux = str "libgomp1" ∷ []
dependencies_packages super_node linux = str "libgomp1" ∷ str "ufw" ∷ str "curl" ∷ []
dependencies_packages dd_service linux =
    str "python3-pip" ∷ str "libwebp-dev" ∷ str "python3-venv" ∷ []
dependencies_packages _ _ = []

unfoldable pub dupe_detection_configs : List Str
dupe_detection_configs =
    str "input_files"
    ∷ dupe_detection_support_file_path
    ∷ str "output_files"
    ∷ str "processed_files"
    ∷ str "rare_on_internet"
    ∷ join dupe_detection_support_file_path (str "mobilenet_v2_140_224")
    ∷ str "img_server"
    ∷ []

unfoldable pub dupe_detection_support_download_url : List Str
dupe_detection_support_download_url =
    str
      "https://download.pastel.network/other/machine-learning/pastel_image_dupe_detection_model_v_1_0.pth.tar"
    ∷ str "https://download.pastel.network/other/machine-learning/pca_byol_bw.vt"
    ∷ str "https://download.pastel.network/other/machine-learning/bayesian_ridge_model_3.joblib"
    ∷ str "https://download.pastel.network/other/machine-learning/nsfw_mobilenet_v2_140_224.zip"
    ∷ []

-- `DupeDetectionSupportChecksum`: a missing key reads as the empty string.
unfoldable pub dupe_detection_support_checksum : Str → Str
dupe_detection_support_checksum name =
    if str_eq name (str "pastel_image_dupe_detection_model_v_1_0.pth.tar")
    then str "5fb3e01cc73654825d17b8d49c60cc138912fca0fe752d5476ed00e8827ae082"
    else if str_eq name (str "pca_byol_bw.vt")
    then str "2515062da53f39fb08cbabdc392beff9749240021513f0bf6fed1eeac2aae3de"
    else if str_eq name (str "bayesian_ridge_model_3.joblib")
    then str "8960914863f6a9859e440d57b4af59e17932b6f4d2ebe9515e89138072a52b06"
    else if str_eq name (str "nsfw_mobilenet_v2_140_224")
    then str "57278dd5a158b7ad8cb4f8d32f26c5f836d0d038044a2119f76fecff7aa241e9"
    else []
