-- ===== src/Registry.antt =====
-- controller/registry.go: the image registry and its credentials. The URL parser of net/url, the
-- file system, the decoders of encoding/json and encoding/base64 and fmt's %q are parameters.
pub mod Laws
use Prim.Native.Char.{code}
use Prim.Native.String.{[], ◌∷◌, ◌++◌}
use telemetry_operator.Base.{
  String, Bool, true, false, not, ◌&&◌, Option, none, some, List, eqb, ◌==◌, if◌then◌else◌,
}
use mathlib.Core.List
use telemetry_operator.Cluster.{Result, ok, err}

-- The parts of a url.URL that the code reads.
pub record Url : Type 0 where
  pub host : String
  pub path : String
  -- u.Hostname()
  pub hostname : String

pub record DockerConfigAuth : Type 0 where
  pub auth : String
  pub username : String
  pub password : String

pub record Decoders : Type 0 where
  -- url.Parse
  pub parse_url : String → Result Url
  -- os.ReadFile
  pub read_file : String → Result String
  -- json.Unmarshal into a dockerConfig: its map `auths`, in the order in which the loop ranges
  pub unmarshal : String → Result (List (String × DockerConfigAuth))
  -- base64.StdEncoding.DecodeString
  pub decode_base64 : String → Result String
  -- fmt's %q
  pub quote : String → String

pub record RegistryConfig : Type 0 where
  pub image_prefix : String
  pub pull_secret_name : String
  pub tls_skip_verify : Bool
  pub host : String
  pub username : String
  pub password : String

abbrev pub default_image_registry : String
default_image_registry = "https://ghcr.io/telemetryinc"

abbrev pub docker_config_path : String
docker_config_path = "/etc/registry/config.json"

-- strings.TrimSuffix(s, "/")
unfoldable pub trim_slash : String → String
trim_slash [] = []
trim_slash (c ∷ []) = if eqb (code c) b'/' then [] else c ∷ []
trim_slash (c ∷ d ∷ s) = c ∷ trim_slash (d ∷ s)

abbrev pub push_front : String → Option (String × String) → Option (String × String)
push_front c none = none
push_front c (some (a, b)) = some (c ++ a, b)

-- strings.SplitN(s, ":", 2), if it has two parts
unfoldable pub split_colon : String → Option (String × String)
split_colon [] = none
split_colon (c ∷ s) =
    let rest = push_front (c ∷ []) (split_colon s) in
    if eqb (code c) b':' then some ([], s) else rest

module _ (d : Decoders) where
  abbrev host_of_url : String → Result Url → String
  host_of_url key (err e) = trim_slash key
  host_of_url key (ok u) = if not (u.host == "") then u.hostname else trim_slash key

  -- The host that a key of `auths` stands for.
  unfoldable pub auth_host : String → String
  unfolding trim_slash
  auth_host key = host_of_url key (d.parse_url key)

  -- What one entry yields: an error ends the loop, `none` goes on.
  abbrev split_auth : Option (String × String) → Result (Option (String × String))
  split_auth none = ok none
  split_auth (some p) = ok (some p)

  abbrev decode_auth : Result String → Result (Option (String × String))
  decode_auth (err e) = err ("failed to decode auth field: " ++ e)
  decode_auth (ok text) = ok (split_colon text)

  unfoldable pub entry_credentials : DockerConfigAuth → Result (Option (String × String))
  unfolding split_colon
  entry_credentials a =
      if not (a.username == "") && not (a.password == "")
      then ok (some (a.username, a.password))
      else if not (a.auth == "")
      then decode_auth (d.decode_base64 a.auth)
      else ok none

  abbrev pub step :
      Result (String × String) → Result (Option (String × String)) → Result (String × String)
  step rest (err e) = err e
  step rest (ok none) = rest
  step rest (ok (some p)) = ok p

  -- The loop of loadDockerConfig: the username and the password.
  unfoldable pub find_credentials :
      String → List (String × DockerConfigAuth) → Result (String × String)
  unfolding auth_host entry_credentials
  find_credentials host List.[] = err ("no credentials found for registry host " ++ d.quote host)
  find_credentials host (List.◌∷◌ (key, a) auths) =
      let rest = find_credentials host auths in
      if host == auth_host key then step rest (entry_credentials a) else rest

  abbrev pub with_credentials : RegistryConfig → Result (String × String) → Result RegistryConfig
  with_credentials c (err e) = err e
  with_credentials c (ok (u, p)) = ok (record c { username = u; password = p })

  abbrev pub use_auths :
      RegistryConfig → Result (List (String × DockerConfigAuth)) → Result RegistryConfig
  use_auths c (err e) = err ("failed to parse docker config: " ++ e)
  use_auths c (ok auths) = with_credentials c (find_credentials c.host auths)

  -- loadDockerConfig
  unfoldable pub load_docker_config : RegistryConfig → String → Result RegistryConfig
  load_docker_config c text = use_auths c (d.unmarshal text)

  abbrev use_file : RegistryConfig → Result String → Result RegistryConfig
  use_file c (err e) = err e
  use_file c (ok text) = load_docker_config c text

  -- loadDockerConfigFrom
  unfoldable pub load_docker_config_from : RegistryConfig → String → Result RegistryConfig
  unfolding load_docker_config
  load_docker_config_from c path = use_file c (d.read_file path)

  abbrev wrap_error : Result RegistryConfig → Result RegistryConfig
  wrap_error (err e) =
      err ("failed to load registry credentials from " ++ docker_config_path ++ ": " ++ e)
  wrap_error (ok c) = ok c

  abbrev config_of : String → Bool → Url → RegistryConfig
  config_of pull_secret tls_skip_verify u = record {
    image_prefix = u.host ++ u.path;
    pull_secret_name = pull_secret;
    tls_skip_verify = tls_skip_verify;
    host = u.hostname;
    username = "";
    password = "";
  }

  abbrev use_url : String → String → Bool → Result Url → Result RegistryConfig
  use_url url pull_secret tls_skip_verify (err e) =
      err ("invalid registry URL " ++ d.quote url ++ ": " ++ e)
  use_url url pull_secret tls_skip_verify (ok u) =
      let c = config_of pull_secret tls_skip_verify u in
      if not (pull_secret == "")
      then wrap_error (load_docker_config_from c docker_config_path)
      else ok c

  -- NewRegistryConfig
  unfoldable pub new_registry_config : String → String → Bool → Result RegistryConfig
  unfolding load_docker_config_from
  new_registry_config registry_url pull_secret tls_skip_verify =
      let url = if registry_url == "" then default_image_registry else registry_url in
      use_url url pull_secret tls_skip_verify (d.parse_url url)

-- Image
unfoldable pub image : RegistryConfig → String → String
image c name = c.image_prefix ++ "/" ++ name

-- The options of a request to the registry.
pub data RemoteOption : Type 0 where
  basic_auth : String → String → RemoteOption
  skip_tls_verify : RemoteOption

-- RemoteOptions
unfoldable pub remote_options : RegistryConfig → List RemoteOption
remote_options c =
    let auth : List RemoteOption =
      if not (c.username == "") && not (c.password == "")
      then List.◌∷◌ (basic_auth c.username c.password) List.[]
      else List.[] in
    if c.tls_skip_verify then List.◌++◌ auth (List.◌∷◌ skip_tls_verify List.[]) else auth
