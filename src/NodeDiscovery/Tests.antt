-- ===== src/NodeDiscovery/Tests.antt =====
-- The generated text of two clusters, and an update whose test fails.
use rollup_starter.Common.{Bool, true, false, List, [], ◌∷◌, none, some, ◌≡◌, refl}
use rollup_starter.Common.Codes.{Codes, codes, print}
use rollup_starter.NodeDiscovery.{
  NodeInfo, ClusterInfo, Host, Conditions, Update, create_lua_backend_cache_content,
  on_cluster_update, run_updates,
}
use rollup_starter.NodeDiscovery.Laws.{Serves, run_updates-Serves}

abbrev node : Codes → Codes → NodeInfo
node node_id address = record { node_id = node_id; address = address }

abbrev empty : ClusterInfo
empty = record { leader = none; followers = [] }

abbrev full : ClusterInfo
full = record {
  leader = some (node (codes "leader-1") (codes "127.0.0.1:3030"));
  followers =
      (codes "follower-a", node (codes "follower-a") (codes "127.0.0.1:3031"))
      ∷ (codes "follower-b", node (codes "follower-b") (codes "127.0.0.1:3032"))
      ∷ [];
}

empty_content :
    create_lua_backend_cache_content empty
    ≡ codes "local c = ngx.shared.backend_cache\nc:flush_all()"
unfolding create_lua_backend_cache_content
empty_content = refl

full_content :
    create_lua_backend_cache_content full
    ≡ codes
        "local c = ngx.shared.backend_cache\nc:flush_all()\nc:set(\"leader\", \"127.0.0.1:3030\")\nc:set(\"follower_1\", \"127.0.0.1:3031\")\nc:set(\"follower_2\", \"127.0.0.1:3032\")"
unfolding create_lua_backend_cache_content print
full_content = refl

abbrev conditions : Bool → Conditions
conditions can_write = record {
  can_write = can_write;
  test_executes = true;
  reload_executes = true;
  reload_takes = true;
}

abbrev host : Host
host = record { config_file = []; loaded = codes "old" }

-- Nothing is loaded if the test fails, and the file stays written.
failed_test :
    (on_cluster_update (λ text. false) (conditions true) empty host).1
    ≡ record host { config_file = create_lua_backend_cache_content empty }
unfolding on_cluster_update
failed_test = refl

abbrev updates : List Update
updates =
    record { cluster_info = empty; conditions = conditions true }
    ∷ record { cluster_info = full; conditions = conditions false }
    ∷ []

run_updates-Serves_example :
    let h' = run_updates (λ text. true) updates host in
    (true ≡ true) × Serves (λ text. true) updates host h'
run_updates-Serves_example = run_updates-Serves (λ text. true) updates host refl
