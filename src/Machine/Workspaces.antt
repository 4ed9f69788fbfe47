-- ===== src/Machine/Workspaces.antt =====
-- internal/nodemanager/workspace_manager.go: the workspace of a run. Git, the file system and Docker
-- are parameters.
use agents_admin.Prelude.{ℤ, pos, Bool, String, str_eq, concat, Option, none, some, if◌then◌else◌}
use agents_admin.Json.{Json, num, obj, Fields, field_value, as_string}
use agents_admin.Machine.Adapters.{Result, gives, refuses, is_set}

pub record GitConfig : Type 0 where
  pub url : String
  pub branch : String
  pub commit : String
  pub depth : ℤ

pub record LocalConfig : Type 0 where
  pub path : String
  pub read_only : Bool

pub record VolumeConfig : Type 0 where
  pub name : String
  pub sub_path : String

pub record WorkspaceConfig : Type 0 where
  pub type : String
  pub git : Option GitConfig
  pub local : Option LocalConfig
  pub volume : Option VolumeConfig

-- `PreparedWorkspace`, as the execution of a run reads it.
pub record Prepared : Type 0 where
  pub path : String
  pub working_dir : String

-- `getIntField`
abbrev pub int_field : Option Json → ℤ
int_field (some (num n)) = n
int_field _ = pos 0

abbrev pub git_of : Option Json → Option GitConfig
git_of (some (obj m)) = some (record {
  url = as_string (field_value "url" m);
  branch = as_string (field_value "branch" m);
  commit = as_string (field_value "commit" m);
  depth = int_field (field_value "depth" m);
})
git_of _ = none

abbrev pub local_of : Option Json → Option LocalConfig
local_of (some (obj m)) = some (record {
  path = as_string (field_value "path" m);
  read_only = is_set (field_value "read_only" m);
})
local_of _ = none

abbrev pub volume_of : Option Json → Option VolumeConfig
volume_of (some (obj m)) = some (record {
  name = as_string (field_value "name" m);
  sub_path = as_string (field_value "sub_path" m);
})
volume_of _ = none

abbrev pub config_of : String → Fields → WorkspaceConfig
config_of t ws = record {
  type = t;
  git = if str_eq t "git" then git_of (field_value "git" ws) else none;
  local = if str_eq t "local" then local_of (field_value "local" ws) else none;
  volume = if str_eq t "volume" then volume_of (field_value "volume" ws) else none;
}

abbrev pub workspace_of : Option Json → Option WorkspaceConfig
workspace_of (some (obj ws)) =
    let t = as_string (field_value "type" ws) in if str_eq t "" then none else some (config_of t ws)
workspace_of _ = none

-- `ParseWorkspaceConfig`
unfoldable pub parse_workspace_config : Fields → Option WorkspaceConfig
parse_workspace_config snapshot = workspace_of (field_value "workspace" snapshot)

-- Making the directory of a run and cloning into it, `os.Stat` with `IsDir`, inspecting or creating a
-- volume, and `filepath.Join`.
pub record Disk : Type 0 where
  pub clone : String → GitConfig → Result String
  pub stat : String → Result Bool
  pub volume : String → Option String
  pub join : String → String → String

abbrev pub prepare_git : Disk → String → Option GitConfig → Result Prepared
prepare_git disk run_id none = refuses "Git URL 不能为空"
prepare_git disk run_id (some git) =
    if str_eq git.url "" then refuses "Git URL 不能为空" else elim (disk.clone run_id git) [
      | refuses e ↦ refuses e
      | gives dir ↦ gives (record { path = dir; working_dir = "/workspace" })
    ]

abbrev pub prepare_local : Disk → Option LocalConfig → Result Prepared
prepare_local disk none = refuses "Local 路径不能为空"
prepare_local disk (some dir) =
    if str_eq dir.path "" then refuses "Local 路径不能为空" else elim (disk.stat dir.path) [
      | refuses e ↦ refuses (concat "目录不存在: " e)
      | gives is_dir ↦
          if is_dir
          then gives (record { path = dir.path; working_dir = "/workspace" })
          else refuses (concat "路径不是目录: " dir.path)
    ]

abbrev pub prepare_volume : Disk → Option VolumeConfig → Result Prepared
prepare_volume disk none = refuses "Volume 名称不能为空"
prepare_volume disk (some v) =
    if str_eq v.name "" then refuses "Volume 名称不能为空" else elim (disk.volume v.name) [
      | some e ↦ refuses e
      | none ↦ gives (record {
        path = v.name;
        working_dir =
            if str_eq v.sub_path "" then "/workspace" else disk.join "/workspace" v.sub_path;
      })
    ]

-- `WorkspaceManager.Prepare`, of a configuration that is there.
unfoldable pub prepare : Disk → String → WorkspaceConfig → Result Prepared
prepare disk run_id config =
    if str_eq config.type "git"
    then prepare_git disk run_id config.git
    else if str_eq config.type "local"
    then prepare_local disk config.local
    else if str_eq config.type "volume"
    then prepare_volume disk config.volume
    else refuses (concat "不支持的 Workspace 类型: " config.type)
