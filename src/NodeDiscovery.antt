-- ===== src/NodeDiscovery.antt =====
-- crates/utils/node-discovery/src/main.rs: the nginx configuration that names the nodes of the cluster, and its
-- update. The service that reports the cluster, and nginx itself, are given.
pub mod Laws
mod Tests
use rollup_starter.Common.{
  ℕ, ◌+◌, Bool, true, false, List, [], ◌∷◌, ◌++◌, Option, none, some, Result, ok, err, ensure,
  if◌then◌else◌,
}
use rollup_starter.Common.Exec.{Exec, lift, ◌>>=◌, ◌>>◌}
use rollup_starter.Common.Codes.{Codes, codes, print}

pub record NodeInfo : Type 0 where
  pub node_id : Codes
  pub address : Codes

-- The followers are a map, in the order of its keys.
pub record ClusterInfo : Type 0 where
  pub leader : Option NodeInfo
  pub followers : List (Codes × NodeInfo)

-- `c:set("key", "value")`
abbrev set_line : Codes → Codes → Codes
set_line key value = codes "c:set(\"" ++ key ++ codes "\", \"" ++ value ++ codes "\")"

abbrev leader_lines : Option NodeInfo → List Codes
leader_lines none = []
leader_lines (some leader) = set_line (codes "leader") leader.address ∷ []

abbrev follower_lines : ℕ → List (Codes × NodeInfo) → List Codes
follower_lines index [] = []
follower_lines index ((id, follower) ∷ followers) =
    set_line (codes "follower_" ++ print (index + 1)) follower.address
    ∷ follower_lines (index + 1) followers

-- `join("\n")`
abbrev join_lines : List Codes → Codes
join_lines [] = []
join_lines (line ∷ []) = line
join_lines (line ∷ more ∷ lines) = line ++ codes "\n" ++ join_lines (more ∷ lines)

unfoldable pub create_lua_backend_cache_content : ClusterInfo → Codes
unfolding print
create_lua_backend_cache_content cluster_info = join_lines (
    codes "local c = ngx.shared.backend_cache"
      ∷ codes "c:flush_all()"
      ∷ leader_lines cluster_info.leader
    ++ follower_lines 0 cluster_info.followers)

-- The file, and the configuration that the running nginx has loaded.
pub record Host : Type 0 where
  pub config_file : Codes
  pub loaded : Codes

pub data UpdateError : Type 0 where
  write_failed not_executed exit_failure : UpdateError

abbrev pub Updating : Type 0 → Type 0
Updating A = Exec Host UpdateError A

-- What the host does in one update: whether the file can be written, whether nginx can be started for the
-- test and for the reload, and whether the reload takes the configuration.
pub record Conditions : Type 0 where
  pub can_write : Bool
  pub test_executes : Bool
  pub reload_executes : Bool
  pub reload_takes : Bool

-- The end of a command: whether it was started, and its exit status.
unfoldable pub run_command : Bool → Bool → Result UpdateError (Unit {0})
run_command false status = err not_executed
run_command true false = err exit_failure
run_command true true = ok tt

-- The parameter is what `nginx -t` says of a configuration.
module _ (valid : Codes → Bool) (c : Conditions) where
  unfoldable pub write_config : ClusterInfo → Updating (Unit {0})
  unfolding create_lua_backend_cache_content
  write_config cluster_info h =
      if c.can_write
      then (ok tt, record h { config_file = create_lua_backend_cache_content cluster_info })
      else (err write_failed, h)

  unfoldable pub validate_config : Updating (Unit {0})
  unfolding run_command
  validate_config h = (run_command c.test_executes (valid h.config_file), h)

  -- A reload that fails keeps what is loaded.
  unfoldable pub reload : Updating (Unit {0})
  unfolding run_command
  reload h = elim (run_command c.reload_executes c.reload_takes) [
    | ok _ ↦ (ok tt, record h { loaded = h.config_file })
    | err e ↦ (err e, h)
  ]

  unfoldable pub on_cluster_update : ClusterInfo → Updating (Unit {0})
  unfolding write_config validate_config reload
  on_cluster_update cluster_info = do write_config cluster_info; validate_config; reload

  -- `ClusterInfo::default`, and the file that `main` writes before the service starts.
  abbrev pub default_cluster_info : ClusterInfo
  default_cluster_info = record { leader = none; followers = [] }

  pub write_initial_config : Updating (Unit {0})
  unfolding write_config
  write_initial_config = write_config default_cluster_info

-- The updates that the service reports, one after the other, whatever their results.
pub record Update : Type 0 where
  pub cluster_info : ClusterInfo
  pub conditions : Conditions

unfoldable pub run_updates : (Codes → Bool) → List Update → Host → Host
unfolding on_cluster_update
run_updates valid [] h = h
run_updates valid (u ∷ updates) h =
    run_updates valid updates (on_cluster_update valid u.conditions u.cluster_info h).1
