-- ===== src/Registry/Laws.antt =====
-- Which credentials loadDockerConfig takes from the docker configuration.
use Prim.Native.Char.{code}
use Prim.Native.String.{[], ◌∷◌, ◌++◌}
use text.Mathlib.TextLemmas.{nil-append, cons-append}
use mathlib.Core.List.{Memᴰ}
use telemetry_operator.Base.{
  String, ◌≡◌, ◌≢◌, refl, ◌⊎◌, inl, inr, Option, none, some, List, arith, ◌==◌, eq_iff, eq_refl,
  Bool-cases, true, false, not, ◌&&◌, if◌then◌else◌,
}
use telemetry_operator.Cluster.{Result, ok, err}
use telemetry_operator.Registry.{
  DockerConfigAuth, Decoders, RegistryConfig, split_colon, auth_host, entry_credentials, step,
  find_credentials, with_credentials, load_docker_config,
}

-- No character is a colon.
abbrev pub NoColon : String → Type 0
NoColon [] = Unit
NoColon (c ∷ s) = (code c ≢ b':') × NoColon s

-- The text before the first colon, and the text behind it, are found again.
pub split_colon-append :
    (user password : String)
    → NoColon user
    → split_colon (user ++ ":" ++ password) ≡ some (user, password)
unfolding split_colon
split_colon-append [] password h = rw (nil-append, cons-append, nil-append)
split_colon-append (c ∷ user) password (h, hs) =
    rw
      (
        cons-append c user (":" ++ password),
        split_colon-append user password hs,
        cons-append c [] user,
        nil-append user,
      )
      (ground arith)

-- A successful run takes the credentials of an entry whose host is the registry's.
pub record Source (d : Decoders) (host : String) (auths : List (String × DockerConfigAuth))
    (u p : String) : Type 0 where
  pub key : String
  pub auth : DockerConfigAuth
  pub listed : Memᴰ (key, auth) auths
  pub same_host : host ≡ auth_host d key
  pub given : entry_credentials d auth ≡ ok (some (u, p))

later :
    {d : Decoders} {host : String} {auths : List (String × DockerConfigAuth)} {u p : String}
    (x : String × DockerConfigAuth)
    → Source d host auths u p
    → Source d host (List.◌∷◌ x auths) u p
later x s = record {
  key = s.key;
  auth = s.auth;
  listed = Memᴰ.tail s.listed;
  same_host = s.same_host;
  given = s.given;
}

module _ (d : Decoders) (host : String) where
  step_inv :
      (rest : Result (String × String)) (r : Result (Option (String × String)))
      {q : String × String}
      → step d rest r ≡ ok q
      → ((r ≡ ok none) × (rest ≡ ok q)) ⊎ (r ≡ ok (some q))
  step_inv rest (err m) e = cc
  step_inv rest (ok none) e = inl (refl, e)
  step_inv rest (ok (some p)) e = inr (cc)

  find_credentials_sound :
      (auths : List (String × DockerConfigAuth)) (u p : String)
      → find_credentials d host auths ≡ ok (u, p)
      → Source d host auths u p
  unfolding find_credentials
  find_credentials_sound List.[] u p e = cc
  find_credentials_sound (List.◌∷◌ (key, a) auths) u p e =
      elim (Bool-cases (host == auth_host d key)) [
        | inl same ↦
            elim (step_inv (find_credentials d host auths) (entry_credentials d a) (rw same at e)) [
              | inl (none_here, rest) ↦ later (key, a) (find_credentials_sound auths u p rest)
              | inr given ↦ record {
                key = key;
                auth = a;
                listed = Memᴰ.head refl;
                same_host = (eq_iff _ _).0 same;
                given = given;
              }
            ]
        | inr other ↦ later (key, a) (find_credentials_sound auths u p (rw other at e))
      ]

with_credentials_inv :
    (d : Decoders) (c : RegistryConfig) (r : Result (String × String)) {c' : RegistryConfig}
    → with_credentials d c r ≡ ok c'
    → (u : String) × (p : String) × (r ≡ ok (u, p)) × (c' ≡ record c { username = u; password = p })
with_credentials_inv d c (err m) e = cc
with_credentials_inv d c (ok (u, p)) e = (u, p, refl, cc)

entry_credentials-login :
    (d : Decoders) (a : DockerConfigAuth) (user password : String)
    → a.auth ≢ ""
    → d.decode_base64 a.auth ≡ ok (user ++ ":" ++ password)
    → NoColon user
    → entry_credentials d a
      ≡ ok (
          some (
            if not (a.username == "") && not (a.password == "")
            then (a.username, a.password)
            else (user, password)))
unfolding entry_credentials
entry_credentials-login d a user password encoded decoded plain =
    let given : (a.auth == "") ≡ false = ground (arith, encoded, eq_iff a.auth "") in
    rw (decoded, split_colon-append user password plain, given) (ground arith)

-- loadDockerConfig succeeds only with the credentials of an entry whose host is the registry's, as
-- that entry gives them, and changes nothing else.
pub load_docker_config_sound :
    (d : Decoders) (c c' : RegistryConfig) (text : String)
    (auths : List (String × DockerConfigAuth))
    → d.unmarshal text ≡ ok auths
    → load_docker_config d c text ≡ ok c'
    → Source d c.host auths c'.username c'.password
      × (c' ≡ record c { username = c'.username; password = c'.password })
unfolding load_docker_config
load_docker_config_sound d c c' text auths parsed e =
    let (u, p, read, same) =
      with_credentials_inv d c (find_credentials d c.host auths) (rw parsed at e) in
    rw same (find_credentials_sound d c.host auths u p read, refl)

-- The entry that stands first decides if it is for the registry's host and has an auth field that
-- decodes to "user:password", where the user has no colon: loadDockerConfig takes the entry's own
-- username and password if neither is empty, and else those of the auth field, and changes nothing
-- else.
pub load_docker_config-login :
    (d : Decoders) (c : RegistryConfig) (text key user password : String) (a : DockerConfigAuth)
    (auths : List (String × DockerConfigAuth))
    → d.unmarshal text ≡ ok (List.◌∷◌ (key, a) auths)
    → auth_host d key ≡ c.host
    → a.auth ≢ ""
    → d.decode_base64 a.auth ≡ ok (user ++ ":" ++ password)
    → NoColon user
    → load_docker_config d c text
      ≡ ok (
          if not (a.username == "") && not (a.password == "")
          then record c { username = a.username; password = a.password }
          else record c { username = user; password = password })
unfolding load_docker_config find_credentials
load_docker_config-login d c text key user password a auths parsed host encoded decoded plain =
    let found = entry_credentials-login d a user password encoded decoded plain in
    rw (parsed, host, eq_refl c.host, found)
      (elim (not (a.username == "") && not (a.password == ""))
        as (λ b.
          with_credentials d c (ok (if b then (a.username, a.password) else (user, password)))
          ≡ ok (
              if b
              then record c { username = a.username; password = a.password }
              else record c { username = user; password = password })) [
                | true ↦ refl
                | false ↦ refl
              ])
