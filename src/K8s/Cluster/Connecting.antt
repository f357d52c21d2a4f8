-- ===== src/K8s/Cluster/Connecting.antt =====
-- NewClient of pkg/k8s/k8s.go. The clients of the API are parameters; a Clientset stands for all three.
use knuu.Prelude.{List}
use knuu.Prelude.Text.{Text}
use knuu.Errors.{k8s_code}
use knuu.Errors.Codes.{
  retrieving_kubernetes_config, creating_clientset, creating_discovery_client,
  creating_dynamic_client,
}
use knuu.Action.{wrapping, ◌>>=◌, ◌>>◌}
use knuu.Host.{Foreign, Call}
use knuu.K8s.Validate.{Validation}
use knuu.K8s.Cluster.{Clientset, Client}
use knuu.K8s.Cluster.Namespaces.{new_client_custom}

module _ ⦃f : Foreign⦄ where
  -- getClusterConfig, and the three calls of NewForConfig.
  pub record Connector : Type 1 where
    pub Config : Type 0
    pub get_cluster_config : Call Config
    pub clientset_for : Config → Call Clientset
    pub discovery_for : Config → Call (Unit {0})
    pub dynamic_for : Config → Call (Unit {0})

  unfoldable pub new_client :
      ⦃v : Validation⦄ ⦃n : Connector⦄ → Text → List (Text → Text) → Call Client
  unfolding new_client_custom
  new_client ⦃v⦄ ⦃n⦄ namespace options = do
    config ← wrapping (k8s_code retrieving_kubernetes_config) n.get_cluster_config
    clientset ← wrapping (k8s_code creating_clientset) (n.clientset_for config)
    wrapping (k8s_code creating_discovery_client) (n.discovery_for config)
    wrapping (k8s_code creating_dynamic_client) (n.dynamic_for config)
    new_client_custom clientset namespace options
