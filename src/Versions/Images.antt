-- ===== src/Versions/Images.antt =====
-- Which image a component gets.
use Prim.Native.String.{◌++◌}
use telemetry_operator.Base.{
  String, ◌≡◌, ◌≢◌, refl, ap, true, some, [], ◌∷◌, arith, ◌==◌, eq_iff, if◌then◌else◌,
}
use telemetry_operator.Base.Map.{lookup, lookup-insert}
use telemetry_operator.Kube.{Kube}
use telemetry_operator.Api.Telemetry.{TelemetrySpec}
use telemetry_operator.Cluster.{Result, ok, err}
use telemetry_operator.Registry.{RegistryConfig, image}
use telemetry_operator.Versions.{
  App, telemetry, node_agent, cluster_agent, clickhouse, clickhouse_keeper, prometheus, app_name,
  Versions, Tags, fetch_app_version, version_or_latest, app_image, fetch_app_versions, spec_image,
  get_app_image,
}

-- The repository in which an application's images stand: ClickHouse Keeper runs ClickHouse's.
abbrev pub repository : App → String
repository clickhouse_keeper = "clickhouse"
repository app = app_name app

version_or_latest-ne-nil : (tags : Tags) (r : Result String) → version_or_latest tags r ≢ ""
version_or_latest-ne-nil tags (err e) h = ground (arith, eq_iff "latest" "")
version_or_latest-ne-nil tags (ok v) h = ground (arith, eq_iff v "", eq_iff "latest" "")

-- A version, and that the image of the application in `versions` has it as its tag.
abbrev pub HasTag : RegistryConfig → Versions → App → Type 0
HasTag registry versions app =
    (tag : String) × (tag ≢ "")
    × (lookup (app_name app) versions ≡ some (image registry (repository app ++ ":" ++ tag)))

module _ (tags : Tags) (registry : RegistryConfig) (versions : Versions) where
  fetched :
      (app : App)
      → (fetched_tag : String) × (fetched_tag ≢ "")
        × (app_image tags registry app ≡ image registry (app_name app ++ ":" ++ fetched_tag))
  unfolding app_image
  fetched app = (
    version_or_latest tags (fetch_app_version tags registry app),
    version_or_latest-ne-nil tags (fetch_app_version tags registry app),
    refl,
  )

  -- After fetchAppVersions every application has an image of the registry with a tag that is not
  -- empty, whatever the registry replied and whatever was known before.
  pub fetch_app_versions-HasTag :
      (app : App) → HasTag registry (fetch_app_versions tags registry versions) app
  unfolding fetch_app_versions
  fetch_app_versions-HasTag telemetry =
      let (t, ne, e) = fetched telemetry in (t, ne, simp lookup-insert (ap some e))
  fetch_app_versions-HasTag node_agent =
      let (t, ne, e) = fetched node_agent in (t, ne, simp lookup-insert (ap some e))
  fetch_app_versions-HasTag cluster_agent =
      let (t, ne, e) = fetched cluster_agent in (t, ne, simp lookup-insert (ap some e))
  fetch_app_versions-HasTag clickhouse =
      ("25.11.2-ubi9-0", (λ e. ground (arith, eq_iff "25.11.2-ubi9-0" "")), simp lookup-insert)
  fetch_app_versions-HasTag clickhouse_keeper =
      ("25.11.2-ubi9-0", (λ e. ground (arith, eq_iff "25.11.2-ubi9-0" "")), simp lookup-insert)
  fetch_app_versions-HasTag prometheus =
      ("2.55.1-ubi9-0", (λ e. ground (arith, eq_iff "2.55.1-ubi9-0" "")), simp lookup-insert)

-- After fetchAppVersions, getAppImage gives a component for which the custom resource names no image
-- an image of the registry with a tag that is not empty, and the registry's pull secret if there is
-- one; otherwise the resource's pull secrets stay.
pub get_app_image-fetched :
    {K : Kube} (tags : Tags) (registry : RegistryConfig) (versions : Versions)
    (spec : TelemetrySpec K) (app : App)
    → (spec_image spec app).name ≡ ""
    → (tag : String) × (tag ≢ "")
      × ((get_app_image (fetch_app_versions tags registry versions) registry spec app).name
          ≡ image registry (repository app ++ ":" ++ tag))
      × ((get_app_image (fetch_app_versions tags registry versions) registry spec app).pull_secrets
          ≡ (if registry.pull_secret_name == ""
              then (spec_image spec app).pull_secrets
              else record { name = registry.pull_secret_name } ∷ []))
unfolding get_app_image
get_app_image-fetched tags registry versions spec app unnamed =
    let (tag, ne, found) = fetch_app_versions-HasTag tags registry versions app in
    let test : ((spec_image spec app).name == "") ≡ true = (eq_iff _ _).1 unnamed in
    (tag, ne, rw (test, found) refl, rw test (ground arith))
