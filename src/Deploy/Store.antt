-- ===== src/Deploy/Store.antt =====
-- scripts/deployment/common.ts: what the deployment files hold, their names, and reading them.
use Prim.Native.String.{◌++◌}
use reserve_protocol.Base.{String, Bool, true, false, Option, none, some}
use reserve_protocol.Base.Text.{Dict, lookup}
use reserve_protocol.Errors.{Error, Result, ok, err, ◌>>=◌, or_throw}
use reserve_protocol.Config.{IComponents, IImplementations}

pub record IPrerequisites : Type 0 where
  pub rsr : String
  pub rsr_feed : String
  pub gnosis_easy_auction : String

pub record IDeployments : Type 0 where
  pub prerequisites : IPrerequisites
  pub rewardable_lib : String
  pub oracle_lib : String
  pub trading_lib : String
  pub permit_lib : String
  pub facade_read : String
  pub facade_write_lib : String
  pub facade_write : String
  pub facade_act : String
  pub deployer : String
  pub rsr_asset : String
  pub implementations : IImplementations

-- `ITokens`: optional keys, in the order in which they were set
pub record IAssetCollDeployments : Type 0 where
  pub assets : Dict String
  pub collateral : Dict String

pub record IrTokenDeployments : Type 0 where
  pub facade_write : String
  pub main : String
  pub components : IComponents
  pub rtoken_asset : String
  pub governance : String
  pub timelock : String

-- The content of a file: one of the three shapes, or a text that `JSON.parse` refuses.
pub data File : Type 0 where
  deployments : IDeployments → File
  asset_coll : IAssetCollDeployments → File
  rtoken : IrTokenDeployments → File
  malformed : File

abbrev pub path_to_folder : String
path_to_folder = "./scripts/addresses/"

abbrev pub temp_file_suffix : String
temp_file_suffix = "-tmp-deployments.json"

abbrev pub temp_asset_coll_file_suffix : String
temp_asset_coll_file_suffix = "-tmp-assets-collateral.json"

unfoldable pub get_deployment_filename : String → String
get_deployment_filename chain_id = path_to_folder ++ (chain_id ++ temp_file_suffix)

unfoldable pub get_asset_coll_deployment_filename : String → String
get_asset_coll_deployment_filename chain_id =
    path_to_folder ++ (chain_id ++ temp_asset_coll_file_suffix)

unfoldable pub get_rtoken_deployment_filename : String → String → String
get_rtoken_deployment_filename chain_id name =
    path_to_folder ++ (chain_id ++ ("-" ++ (name ++ temp_file_suffix)))

abbrev is_there : Option File → Bool
is_there none = false
is_there (some f) = true

-- `fs.accessSync` throws where there is no file
unfoldable pub file_exists : String → Dict File → Bool
file_exists file files = is_there (lookup file files)

-- `JSON.parse` of a text that is there
abbrev parse_file : String → File → Result File
parse_file path malformed = err (Error.file_unreadable path)
parse_file path (deployments d) = ok (deployments d)
parse_file path (asset_coll d) = ok (asset_coll d)
parse_file path (rtoken d) = ok (rtoken d)

unfoldable pub get_deployment_file : String → Dict File → Result File
get_deployment_file path files =
    or_throw (Error.file_missing path) (lookup path files) >>= parse_file path

-- The unchecked casts of the callers: an object of another shape fails at its first key.
abbrev pub as_deployments : File → Result IDeployments
as_deployments (deployments d) = ok d
as_deployments _ = err Error.type_error

abbrev pub as_asset_coll : File → Result IAssetCollDeployments
as_asset_coll (asset_coll d) = ok d
as_asset_coll _ = err Error.type_error

abbrev pub as_rtoken : File → Result IrTokenDeployments
as_rtoken (rtoken d) = ok d
as_rtoken _ = err Error.type_error
