-- ===== src/Versions.antt =====
-- controller/versions.go: which image each component runs. The registry (go-containerregistry) and
-- the version numbers (coreos/go-semver) are parameters.
pub mod Laws
pub mod Images
use Prim.Native.String.{◌++◌}
use mathlib.Core.List
use telemetry_operator.Base.{
  String, Bool, true, false, not, Option, none, some, List, [], ◌∷◌, map, ◌==◌, if◌then◌else◌,
}
use telemetry_operator.Base.Map.{lookup, insert}
use telemetry_operator.Base.Order.{sort}
use telemetry_operator.Base.Order.Last.{last}
use telemetry_operator.Kube.{Kube, LocalObjectReference}
use telemetry_operator.Api.Common.{ImageSpec}
use telemetry_operator.Api.Telemetry.{TelemetrySpec}
use telemetry_operator.Cluster.{Result, ok, err}
use telemetry_operator.Registry.{RegistryConfig, image, RemoteOption, remote_options}

pub data App : Type 0 where
  telemetry node_agent cluster_agent clickhouse clickhouse_keeper prometheus : App

-- The constants' values.
abbrev pub app_name : App → String
app_name telemetry = "telemetry"
app_name node_agent = "telemetry-node-agent"
app_name cluster_agent = "telemetry-cluster-agent"
app_name clickhouse = "clickhouse"
app_name clickhouse_keeper = "clickhouse-keeper"
app_name prometheus = "prometheus"

abbrev pub clickhouse_image : String
clickhouse_image = "clickhouse:25.11.2-ubi9-0"

abbrev pub prometheus_image : String
prometheus_image = "prometheus:2.55.1-ubi9-0"

-- map[App]string, by the values of the constants
abbrev pub Versions : Type 0
Versions = List (String × String)

abbrev pub or_empty : Option String → String
or_empty none = ""
or_empty (some v) = v

module _ {K : Kube} where
  abbrev pub spec_image : TelemetrySpec K → App → ImageSpec
  spec_image spec telemetry = spec.image
  spec_image spec node_agent = spec.node_agent.image
  spec_image spec cluster_agent = spec.cluster_agent.image
  spec_image spec clickhouse = spec.clickhouse.image
  spec_image spec clickhouse_keeper = spec.clickhouse.keeper.image
  spec_image spec prometheus = spec.prometheus.image

  -- getAppImage
  unfoldable pub get_app_image : Versions → RegistryConfig → TelemetrySpec K → App → ImageSpec
  get_app_image versions registry spec app =
      let chosen = spec_image spec app in
      if not (chosen.name == "") then chosen else record chosen {
        name = or_empty (lookup (app_name app) versions);
        pull_secrets =
            if not (registry.pull_secret_name == "")
            then record { name = registry.pull_secret_name } ∷ []
            else chosen.pull_secrets;
      }

-- The registry, and the version numbers of tags.
pub record Tags : Type 1 where
  -- name.NewRepository: the error, if the name is not valid
  pub repository_error : String → Option String
  -- remote.List, with a timeout
  pub list_tags : String → List RemoteOption → Result (List String)
  pub Version : Type 0
  -- semver.NewVersion
  pub parse : String → Option Version
  -- v.LessThan(w)
  pub less_than : Version → Version → Bool

module _ (tags : Tags) where
  abbrev pub Item : Type 0
  Item = tags.Version × String

  abbrev pub item_of : Option tags.Version → String → List Item → List Item
  item_of none tag items = items
  item_of (some v) tag items = (v, tag) ∷ items

  -- The tags that are version numbers, in their order.
  unfoldable pub items_of : List String → List Item
  items_of [] = []
  items_of (t ∷ ts) = item_of (tags.parse t) t (items_of ts)

  -- a does not come after b
  abbrev pub item_le : Item → Item → Bool
  item_le a b = not (tags.less_than b.0 a.0)

  abbrev pub newest : Option Item → Result String
  newest none = err "no tags found"
  newest (some (v, tag)) = ok tag

  -- The tag of the last item after sorting. sort.Slice need not be stable: among equal versions any
  -- tag may come last.
  unfoldable pub newest_tag : List String → Result String
  unfolding items_of
  newest_tag ts = newest (last (sort item_le (items_of ts)))

  abbrev of_list : Result (List String) → Result String
  of_list (err e) = err e
  of_list (ok ts) = newest_tag ts

  abbrev of_repository : RegistryConfig → String → Option String → Result String
  of_repository registry name (some e) = err e
  of_repository registry name none = of_list (tags.list_tags name (remote_options registry))

  -- fetchAppVersion
  unfoldable pub fetch_app_version : RegistryConfig → App → Result String
  unfolding newest_tag
  fetch_app_version registry app =
      let name = image registry (app_name app) in
      of_repository registry name (tags.repository_error name)

  -- The version of the result; after an error it is "latest".
  abbrev pub version_or_latest : Result String → String
  version_or_latest (err e) = "latest"
  version_or_latest (ok v) = if v == "" then "latest" else v

  unfoldable pub app_image : RegistryConfig → App → String
  unfolding fetch_app_version
  app_image registry app =
      let v = version_or_latest (fetch_app_version registry app) in
      image registry (app_name app ++ ":" ++ v)

  -- fetchAppVersions
  unfoldable pub fetch_app_versions : RegistryConfig → Versions → Versions
  unfolding app_image
  fetch_app_versions registry versions =
      let v1 = insert "telemetry" (app_image registry telemetry) versions in
      let v2 = insert "telemetry-node-agent" (app_image registry node_agent) v1 in
      let v3 = insert "telemetry-cluster-agent" (app_image registry cluster_agent) v2 in
      let v4 = insert "clickhouse" (image registry clickhouse_image) v3 in
      let v5 = insert "clickhouse-keeper" (image registry clickhouse_image) v4 in
      insert "prometheus" (image registry prometheus_image) v5
