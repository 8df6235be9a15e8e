-- ===== src/Examples/Registry.antt =====
-- Runs with a registry that lists three tags, and a docker configuration with one entry.
use Prim.Native.String.{◌++◌}
use telemetry_operator.Base.{
  ◌≡◌, ◌≢◌, refl, ℕ, ltb, false, String, Option, none, some, List, arith, ◌==◌, eq_iff,
  if◌then◌else◌,
}
use telemetry_operator.Base.Order.{sort}
use telemetry_operator.Base.Order.Last.{last}
use telemetry_operator.Cluster.{ok, err}
use telemetry_operator.Registry.{
  Decoders, RegistryConfig, image, auth_host, trim_slash, load_docker_config,
}
use telemetry_operator.Registry.Laws.{Source, load_docker_config_sound, load_docker_config-login}
use telemetry_operator.Versions.{Tags, newest_tag, cluster_agent, get_app_image, fetch_app_versions}
use telemetry_operator.Versions.Laws.{IsOrder, IsNewest, newest_tag-IsNewest}
use telemetry_operator.Versions.Images.{HasTag, fetch_app_versions-HasTag, get_app_image-fetched}
use telemetry_operator.Examples.World.{resource}

-- Version numbers are one digit.
abbrev version_of : String → Option ℕ
version_of tag =
    if tag == "1"
    then some 1
    else if tag == "2"
    then some 2
    else if tag == "3"
    then some 3
    else none

abbrev tag_list : List String
tag_list = List.◌∷◌ "2" (List.◌∷◌ "3" (List.◌∷◌ "latest" (List.◌∷◌ "1" List.[])))

abbrev tags : Tags
tags = record {
  repository_error = λ name. none;
  list_tags = λ name options. ok tag_list;
  Version = ℕ;
  parse = version_of;
  less_than = ltb;
}

tags-IsOrder : IsOrder tags
tags-IsOrder = record { asym = λ v w h. ground arith; neg_trans = λ u v w h k. ground arith }

newest_tag-IsNewest_example : IsNewest tags tag_list "3"
unfolding newest_tag last sort
newest_tag-IsNewest_example = newest_tag-IsNewest tags tags-IsOrder tag_list "3" refl

-- "dTpw" stands for "u:p".
abbrev decoders : Decoders
decoders = record {
  parse_url = λ text. err "no URL";
  read_file = λ path. ok "file";
  unmarshal = λ text.
      ok (List.◌∷◌ ("ghcr.io/", record { auth = "dTpw"; username = ""; password = "" }) List.[]);
  decode_base64 = λ text. ok "u:p";
  quote = λ text. "\"" ++ text ++ "\"";
}

abbrev registry : RegistryConfig
registry = record {
  image_prefix = "ghcr.io/telemetryinc";
  pull_secret_name = "pull";
  tls_skip_verify = false;
  host = "ghcr.io";
  username = "";
  password = "";
}

abbrev with_login : RegistryConfig
with_login = record registry { username = "u"; password = "p" }

load_docker_config-login_example : load_docker_config decoders registry "file" ≡ ok with_login
unfolding auth_host trim_slash
load_docker_config-login_example =
    load_docker_config-login decoders registry "file" "ghcr.io/" "u" "p"
      (record { auth = "dTpw"; username = ""; password = "" }) List.[] refl refl
      (λ e. ground (arith, eq_iff "dTpw" "")) refl (ground arith, tt)

load_docker_config_sound_example :
    Source decoders "ghcr.io"
      (List.◌∷◌ ("ghcr.io/", record { auth = "dTpw"; username = ""; password = "" }) List.[])
      "u"
      "p"
    × (with_login ≡ record registry { username = "u"; password = "p" })
load_docker_config_sound_example =
    load_docker_config_sound decoders registry with_login "file"
      (List.◌∷◌ ("ghcr.io/", record { auth = "dTpw"; username = ""; password = "" }) List.[]) refl
      load_docker_config-login_example

fetch_app_versions-HasTag_example :
    HasTag registry (fetch_app_versions tags registry List.[]) cluster_agent
fetch_app_versions-HasTag_example = fetch_app_versions-HasTag tags registry List.[] cluster_agent

get_app_image-fetched_example :
    (tag : String) × (tag ≢ "")
    × ((get_app_image
          (fetch_app_versions tags registry List.[])
          registry
          resource.spec
          cluster_agent).name
        ≡ image registry ("telemetry-cluster-agent" ++ ":" ++ tag))
    × ((get_app_image
          (fetch_app_versions tags registry List.[])
          registry
          resource.spec
          cluster_agent).pull_secrets
        ≡ List.◌∷◌ (record { name = "pull" }) List.[])
get_app_image-fetched_example =
    get_app_image-fetched tags registry List.[] resource.spec cluster_agent refl
