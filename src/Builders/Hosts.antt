-- ===== src/Builders/Hosts.antt =====
-- The hosts that ClickHouse's configuration names and the pods of the stateful sets.
use Prim.Native.String.{◌++◌}
use text.Mathlib.TextLemmas.{append_assoc}
use mathlib.Core.Path.{subst}
use mathlib.Core.List.Memᴰ
use mathlib.Core.List.{Memᴰ, flat_map, map}
use telemetry_operator.Base.{
  ◌≡◌, refl, sym, ap, ◌∙◌, ℤ, ℕ, ◌<◌, String, List, [], ◌∷◌, rounds, arith,
}
use telemetry_operator.Base.Int.{int32}
use telemetry_operator.Base.Text.{show}
use telemetry_operator.Kube.{Kube}
use telemetry_operator.Api.Telemetry.{Telemetry}
use telemetry_operator.Objects.{StatefulSet, PersistentVolumeClaim}
use telemetry_operator.Registry.{RegistryConfig}
use telemetry_operator.Versions.{Versions}
use telemetry_operator.Validate.{Outcome, returned, panicked}
use telemetry_operator.Builders.Labels.{count_up}
use telemetry_operator.Builders.Counting.{
  count_up-Memᴰ_inv, listed_0, flat_map-Memᴰ, rounds-int32_keeper,
}
use telemetry_operator.Builders.Pod.{lines_text, first}
use telemetry_operator.Builders.Stores.{clickhouse_pvcs, clickhouse_keeper_replicas}
use telemetry_operator.Builders.Declared.{value_or}
use telemetry_operator.Builders.ClickhouseConfig.{
  ClickhouseParams, head_lines, replica_host, host_line, replica_lines, shard_lines, keeper_host,
  keeper_line, keeper_lines, middle_lines, clickhouse_config_lines, clickhouse_params,
  clickhouse_config_cmd,
}
use telemetry_operator.Builders.Databases.{
  one_if_not_positive, clickhouse_replicas, clickhouse_set, clickhouse_sets,
  clickhouse_stateful_sets, keeper_set, clickhouse_keeper_stateful_set,
}

-- The name under which Kubernetes lets a pod of a stateful set be found.
abbrev pub pod_host : {K : Kube} → StatefulSet K → ℕ → String
pod_host s i = s.meta.name ++ "-" ++ show i ++ "." ++ s.service_name ++ "." ++ s.meta.namespace

-- The init container of a set's pods writes a configuration that has a certain line.
abbrev pub Configures : {K : Kube} → StatefulSet K → String → Type 0
Configures s line =
    (lines : List String) × (map (λ c. c.args) s.template.init_containers
      ≡ (("cat <<EOF > " ++ "/config/config.xml" ++ lines_text lines ++ "EOF") ∷ []) ∷ [])
    × Memᴰ line lines

clickhouse_config_lines-host :
    (p : ClickhouseParams) (shard replica : ℕ)
    → Memᴰ shard p.shards
    → Memᴰ replica p.replicas
    → Memᴰ (host_line (replica_host p shard replica)) (clickhouse_config_lines p)
unfolding clickhouse_config_lines
clickhouse_config_lines-host p shard replica m n =
    let replicas =
      flat_map-Memᴰ (replica_lines p shard) p.replicas replica _ n (Memᴰ.tail (Memᴰ.head refl)) in
    let own : Memᴰ (host_line (replica_host p shard replica)) (shard_lines p shard) =
      Memᴰ.tail (Memᴰ.tail (Memᴰ.append_left _ replicas)) in
    Memᴰ.append_right (head_lines p)
      (Memᴰ.append_left _ (flat_map-Memᴰ (shard_lines p) p.shards shard _ m own))

clickhouse_config_lines-keeper :
    (p : ClickhouseParams) (keeper : ℕ)
    → Memᴰ keeper p.keepers
    → Memᴰ (keeper_line (keeper_host p keeper)) (clickhouse_config_lines p)
unfolding clickhouse_config_lines
clickhouse_config_lines-keeper p keeper m =
    let own = flat_map-Memᴰ (keeper_lines p) p.keepers keeper _ m (Memᴰ.tail (Memᴰ.head refl)) in
    Memᴰ.append_right (head_lines p) (
      Memᴰ.append_right (flat_map (shard_lines p) p.shards)
        (Memᴰ.append_right middle_lines (Memᴰ.append_left _ own)))

module _ (K : Kube) (versions : Versions) (registry : RegistryConfig) (cr : Telemetry K) where
  -- The parameters of the configuration of all shards.
  abbrev params : ClickhouseParams
  params =
      clickhouse_params K cr (one_if_not_positive cr.spec.clickhouse.shards)
        (clickhouse_replicas K cr) (clickhouse_keeper_replicas K cr)

  clickhouse_set-Configures :
      (claim : PersistentVolumeClaim K) (shard : ℕ) (line : String)
      → Memᴰ line (clickhouse_config_lines params)
      → Configures (clickhouse_set K versions registry cr claim shard) line
  unfolding clickhouse_config_cmd
  clickhouse_set-Configures claim shard line m = (clickhouse_config_lines params, refl, m)

  -- What all sets share.
  clickhouse_sets_inv :
      (claim : Outcome (PersistentVolumeClaim K)) (sets : List (StatefulSet K))
      → clickhouse_sets K versions registry cr claim ≡ returned sets
      → (c : PersistentVolumeClaim K) × (sets
          ≡ map
              (clickhouse_set K versions registry cr c)
              (count_up 0 (rounds (one_if_not_positive cr.spec.clickhouse.shards))))
  clickhouse_sets_inv panicked sets e = cc
  clickhouse_sets_inv (returned c) sets e = (c, sym (ap (value_or []) e))

  set_at :
      (sets : List (StatefulSet K)) (s : StatefulSet K)
      → clickhouse_stateful_sets K versions registry cr ≡ returned sets
      → Memᴰ s sets
      → (c : PersistentVolumeClaim K) × (shard : ℕ) × (shard
          < rounds (one_if_not_positive cr.spec.clickhouse.shards))
        × (s ≡ clickhouse_set K versions registry cr c shard)
  unfolding clickhouse_stateful_sets
  set_at sets s e m =
      let (c, all) = clickhouse_sets_inv (first (clickhouse_pvcs K cr)) sets e in
      let (shard, below, same) =
        count_up-Memᴰ_inv (clickhouse_set K versions registry cr c) 0 _ s (subst (Memᴰ s) all m) in
      (c, shard, omega arith, same)

  pod_host-replica :
      (c : PersistentVolumeClaim K) (shard i : ℕ)
      → replica_host params shard i ≡ pod_host (clickhouse_set K versions registry cr c shard) i
  pod_host-replica c shard i =
      let dotted : "-clickhouse-headless" ++ "." ++ cr.namespace
          ≡ "-clickhouse-headless." ++ cr.namespace =
        sym (append_assoc "-clickhouse-headless" "." cr.namespace) in
      rw
        (
          append_assoc cr.name ("-clickhouse-shard-" ++ show shard),
          append_assoc "-clickhouse-shard-" (show shard),
          append_assoc cr.name "-clickhouse-headless",
          dotted,
        )
        refl

  keeper_set_inv :
      (replicas : ℤ) (claim : Outcome (PersistentVolumeClaim K)) (k : StatefulSet K)
      → keeper_set K versions registry cr replicas claim ≡ returned k
      → (k.meta.name ≡ cr.name ++ "-clickhouse-keeper")
        × (k.meta.namespace ≡ cr.namespace)
        × (k.service_name ≡ cr.name ++ "-clickhouse-keeper-headless")
        × (k.replicas ≡ replicas)
  keeper_set_inv replicas panicked k e = cc
  keeper_set_inv replicas (returned claim) k e =
      let same = sym (ap (value_or k) e) in
      (
        ap (λ s. s.meta.name) same,
        ap (λ s. s.meta.namespace) same,
        ap (λ s. s.service_name) same,
        ap (λ s. s.replicas) same,
      )

  keeper_host-pod :
      (k : StatefulSet K) (i : ℕ)
      → k.meta.name ≡ cr.name ++ "-clickhouse-keeper"
      → k.meta.namespace ≡ cr.namespace
      → k.service_name ≡ cr.name ++ "-clickhouse-keeper-headless"
      → keeper_host params i ≡ pod_host k i
  keeper_host-pod k i name namespace service =
      let dotted : "-clickhouse-keeper-headless" ++ "." ++ cr.namespace
          ≡ "-clickhouse-keeper-headless." ++ cr.namespace =
        sym (append_assoc "-clickhouse-keeper-headless" "." cr.namespace) in
      let rest = show i ++ "." ++ cr.name ++ "-clickhouse-keeper-headless." ++ cr.namespace in
      let dashed : "-clickhouse-keeper" ++ "-" ++ rest ≡ "-clickhouse-keeper-" ++ rest =
        sym (append_assoc "-clickhouse-keeper" "-" rest) in
      rw
        (
          name,
          namespace,
          service,
          append_assoc cr.name "-clickhouse-keeper",
          append_assoc cr.name "-clickhouse-keeper-headless",
          dotted,
          dashed,
        )
        refl

-- Where the stateful sets of ClickHouse's shards and of its keeper can be built, the configuration
-- that the init container of every ClickHouse pod writes names, under the name by which Kubernetes
-- lets the pod be found, every pod of every shard's set and every pod of the keeper's.
pub clickhouse_stateful_sets-Configures :
    (K : Kube) (versions : Versions) (registry : RegistryConfig) (cr : Telemetry K)
    (sets : List (StatefulSet K)) (keepers s t : StatefulSet K) (i j : ℕ)
    → clickhouse_stateful_sets K versions registry cr ≡ returned sets
    → clickhouse_keeper_stateful_set K versions registry cr ≡ returned keepers
    → Memᴰ s sets
    → Memᴰ t sets
    → i < rounds t.replicas
    → j < rounds keepers.replicas
    → Configures s (host_line (pod_host t i)) × Configures s (keeper_line (pod_host keepers j))
unfolding clickhouse_keeper_stateful_set clickhouse_keeper_replicas
clickhouse_stateful_sets-Configures K versions registry cr sets keepers s t i j e f m n less fewer =
    let (c, shard, below, same) = set_at K versions registry cr sets s e m in
    let (d, other, under, equal) = set_at K versions registry cr sets t e n in
    let (name, namespace, service, replicas) =
      keeper_set_inv K versions registry cr _ _ keepers f in
    let here = params K versions registry cr in
    let host : host_line (replica_host here other i) ≡ host_line (pod_host t i) =
      ap host_line
        (pod_host-replica K versions registry cr d other i ∙ ap (λ x. pod_host x i) (sym equal)) in
    let keeper : keeper_line (keeper_host here j) ≡ keeper_line (pod_host keepers j) =
      ap keeper_line (keeper_host-pod K versions registry cr keepers j name namespace service) in
    let less' : i < rounds (clickhouse_replicas K cr) =
      subst (λ z. i < rounds z) (ap (λ x. x.replicas) equal) less in
    let fewer' : j < rounds (int32 (clickhouse_keeper_replicas K cr)) =
      subst (λ z. j < rounds z) replicas fewer in
    let bound = rounds-int32_keeper cr.spec.clickhouse.keeper.replicas in
    let listed_keeper = listed_0 (rounds (clickhouse_keeper_replicas K cr)) j (omega arith) in
    let configures : (line : String)
        → Memᴰ line (clickhouse_config_lines here)
        → Configures s line =
      λ line x.
        subst (λ y. Configures y line) (sym same)
          (clickhouse_set-Configures K versions registry cr c shard line x) in
    (
      configures _ (
          Memᴰ.cast (sym host) (
            clickhouse_config_lines-host here other i (listed_0 _ other under)
              (listed_0 _ i less'))),
      configures _ (Memᴰ.cast (sym keeper) (clickhouse_config_lines-keeper here j listed_keeper)),
    )
