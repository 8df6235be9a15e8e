-- ===== src/Builders/Stores.antt =====
-- controller/{clickhouse,clickhouse_keeper,prometheus}.go: the services and the volume claims of the
-- databases.
use Prim.Native.String.{◌++◌}
use mathlib.Core.List.{flat_map}
use telemetry_operator.Base.{
  ℤ, pos, String, true, false, List, [], ◌∷◌, is_positive, rounds, if◌then◌else◌, map,
}
use telemetry_operator.Base.Text.{show}
use telemetry_operator.Kube.{Kube, SecretKeySelector, or_default}
use telemetry_operator.Api.Telemetry.{Telemetry}
use telemetry_operator.Objects.{ServicePort, Service, PersistentVolumeClaim}
use telemetry_operator.Builders.Labels.{labels, meta_of, tcp_port, one_if_zero, count_up, claim_of}

-- A service inside the cluster with the component's pods behind it.
abbrev pub cluster_ip_service :
    (K : Kube) → Telemetry K → String → String → List ServicePort → Service
cluster_ip_service K cr name component ports = record {
  meta = meta_of K cr name component;
  selector = labels K cr component;
  cluster_ip = "";
  type = "ClusterIP";
  publish_not_ready_addresses = false;
  ports = ports;
}

-- The same without an address of its own.
abbrev pub headless_service :
    (K : Kube) → Telemetry K → String → String → List ServicePort → Service
headless_service K cr name component ports = record (cluster_ip_service K cr name component ports) {
  cluster_ip = "None";
  publish_not_ready_addresses = true;
}

-- clickhousePasswordSecret
abbrev pub clickhouse_password_secret : (K : Kube) → Telemetry K → SecretKeySelector
clickhouse_password_secret K cr = record { name = cr.name ++ "-clickhouse"; key = "password" }

-- clickhouseService
unfoldable pub clickhouse_service : (K : Kube) → Telemetry K → Service
clickhouse_service K cr =
    cluster_ip_service K cr (cr.name ++ "-clickhouse") "clickhouse"
      (tcp_port "http" (pos 8123) ∷ tcp_port "tcp" (pos 9000) ∷ [])

-- clickhouseServiceHeadless
unfoldable pub clickhouse_service_headless : (K : Kube) → Telemetry K → Service
clickhouse_service_headless K cr =
    headless_service K cr (cr.name ++ "-clickhouse-headless") "clickhouse"
      (tcp_port "http" (pos 8123) ∷ tcp_port "tcp" (pos 9000) ∷ [])

-- clickhousePVCs: the claims of all replicas of the first shard come first.
unfoldable pub clickhouse_pvcs : (K : Kube) → Telemetry K → List (PersistentVolumeClaim K)
clickhouse_pvcs K cr =
    flat_map
      (λ shard.
        map
          (λ replica.
            claim_of K cr "clickhouse" cr.spec.clickhouse.storage.annotations
              (or_default K cr.spec.clickhouse.storage.size "100Gi")
              cr.spec.clickhouse.storage.class_name
              ("data-" ++ cr.name ++ "-clickhouse-shard-" ++ show shard ++ "-" ++ show replica))
          (count_up 0 (rounds (one_if_zero cr.spec.clickhouse.replicas))))
      (count_up 0 (rounds (one_if_zero cr.spec.clickhouse.shards)))

-- clickhouseKeeperReplicas
unfoldable pub clickhouse_keeper_replicas : (K : Kube) → Telemetry K → ℤ
clickhouse_keeper_replicas K cr =
    if is_positive cr.spec.clickhouse.keeper.replicas
    then cr.spec.clickhouse.keeper.replicas
    else pos 3

-- clickhouseKeeperServiceHeadless
unfoldable pub clickhouse_keeper_service_headless : (K : Kube) → Telemetry K → Service
clickhouse_keeper_service_headless K cr =
    headless_service K cr (cr.name ++ "-clickhouse-keeper-headless") "clickhouse-keeper"
      (tcp_port "client" (pos 9181) ∷ tcp_port "inter" (pos 9234) ∷ [])

-- clickhouseKeeperPVCs
unfoldable pub clickhouse_keeper_pvcs : (K : Kube) → Telemetry K → List (PersistentVolumeClaim K)
unfolding clickhouse_keeper_replicas
clickhouse_keeper_pvcs K cr =
    map
      (λ replica.
        claim_of K cr "clickhouse-keeper" cr.spec.clickhouse.keeper.storage.annotations
          (or_default K cr.spec.clickhouse.keeper.storage.size "10Gi")
          cr.spec.clickhouse.keeper.storage.class_name
          ("data-" ++ cr.name ++ "-clickhouse-keeper-" ++ show replica))
      (count_up 0 (rounds (clickhouse_keeper_replicas K cr)))

-- prometheusService
unfoldable pub prometheus_service : (K : Kube) → Telemetry K → Service
prometheus_service K cr =
    cluster_ip_service K cr (cr.name ++ "-prometheus") "prometheus"
      (tcp_port "http" (pos 9090) ∷ [])

-- prometheusPVC
unfoldable pub prometheus_pvc : (K : Kube) → Telemetry K → PersistentVolumeClaim K
prometheus_pvc K cr =
    claim_of K cr "prometheus" cr.spec.prometheus.storage.annotations
      (or_default K cr.spec.prometheus.storage.size "10Gi") cr.spec.prometheus.storage.class_name
      ("data-" ++ cr.name ++ "-prometheus")
