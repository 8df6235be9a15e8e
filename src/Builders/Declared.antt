-- ===== src/Builders/Declared.antt =====
-- The stateful set of the telemetry server: when it can be built, and that what its pod refers to is
-- declared.
use Prim.Native.String.{◌++◌}
use mathlib.Core.List.{map, ◌++◌ as append}
use telemetry_operator.Base.{
  ◌≡◌, refl, ap, ◌∙◌, ℤ, pos, negsuc, zero, suc, String, Bool, true, false, not, ◌&&◌, ◌||◌, Option,
  none, some, List, [], ◌∷◌, is_zero_ℤ, arith, is_some,
}
use telemetry_operator.Base.Predicates.{All, IfSome}
use mathlib.Core.Path.{subst}
use telemetry_operator.Kube.{Kube, SecretKeySelector}
use telemetry_operator.Api.Telemetry.{Telemetry, TelemetrySpec, TlsSpec}
use telemetry_operator.Objects.{PersistentVolumeClaim, ContainerPort, Volume, StatefulSet}
use telemetry_operator.ConfigEnvs.{ConfigEnvs}
use telemetry_operator.Registry.{RegistryConfig}
use telemetry_operator.Versions.{Versions}
use telemetry_operator.Validate.{Outcome, returned, panicked}
use telemetry_operator.Validate.Returns.{did_return, has_selectors}
use telemetry_operator.Validate.Validated.{PortsReady}
use telemetry_operator.Validate.Frame.{is_negative}
use telemetry_operator.Builders.Labels.{count_up}
use telemetry_operator.Builders.Front.{telemetry_pvcs}
use telemetry_operator.Builders.Access.{names}
use telemetry_operator.Builders.Pod.{container_port, first}
use telemetry_operator.Builders.Server.{
  container_ports, volume_mounts, port_where, tls_volume, readiness_probe, server_replicas,
  tls_volumes, server_set, telemetry_stateful_set,
}

did_return-first :
    (K : Kube) (cr : Telemetry K) (z : ℤ)
    → cr.spec.replicas ≡ z
    → did_return (first (telemetry_pvcs K cr)) ≡ not (is_negative z)
unfolding telemetry_pvcs count_up
did_return-first K cr (pos zero) e = rw e refl
did_return-first K cr (pos (suc n)) e = rw e refl
did_return-first K cr (negsuc n) e = rw e refl

did_return-tls_volumes : (t : Option TlsSpec) → did_return (tls_volumes t) ≡ has_selectors t
did_return-tls_volumes none = refl
did_return-tls_volumes (some t) = ground arith

module _ (K : Kube) (versions : Versions) (registry : RegistryConfig) where
  did_return-server_set :
      (cr : Telemetry K) (envs : ConfigEnvs) (hash : String) (tls : Outcome (List Volume))
      (claim : Outcome (PersistentVolumeClaim K))
      → did_return (server_set K versions registry cr envs hash tls claim)
        ≡ (did_return tls && did_return claim)
  did_return-server_set cr envs hash panicked claim = refl
  did_return-server_set cr envs hash (returned tls) panicked = refl
  did_return-server_set cr envs hash (returned tls) (returned claim) = refl

  -- telemetryStatefulSet returns exactly when the TLS section, if there is one, names both of its
  -- secrets and the number of replicas is not negative; otherwise it panics.
  pub did_return-telemetry_stateful_set :
      (cr : Telemetry K) (envs : ConfigEnvs) (hash : String)
      → did_return (telemetry_stateful_set K versions registry cr envs hash)
        ≡ (has_selectors cr.spec.tls && not (is_negative cr.spec.replicas))
  unfolding telemetry_stateful_set
  did_return-telemetry_stateful_set cr envs hash =
      did_return-server_set cr envs hash (tls_volumes cr.spec.tls) (first (telemetry_pvcs K cr))
      ∙ rw (did_return-tls_volumes cr.spec.tls, did_return-first K cr cr.spec.replicas refl) refl

-- The value of a call that returns, or a default.
abbrev pub value_or {ℓ} : {A : Type ℓ} → A → Outcome A → A
value_or a (returned b) = b
value_or a panicked = a

-- What the pods of a stateful set refer to is declared: each mount is of a volume of the pod or of a
-- claim of the set, and each probe's port is one of the container's.
pub record Declares {K : Kube} (s : StatefulSet K) : Type 0 where
  pub mounts :
      All
        (λ c.
          All
            (λ m.
              names m.name (
                append
                  (map (λ v. v.name) s.template.volumes)
                  (map (λ t. t.meta.name) s.volume_claim_templates))
              ≡ true)
            c.volume_mounts)
        s.template.containers
  pub probes :
      All
        (λ c. IfSome (λ p. names p.port (map (λ q. q.name) c.ports) ≡ true) c.readiness_probe)
        s.template.containers

tls_volume-names :
    (cert key : Option SecretKeySelector) (vs : List Volume)
    → tls_volume cert key ≡ returned vs
    → (names "data" (append (map (λ v. v.name) vs) ("data" ∷ [])) ≡ true)
      × (names "tls" (append (map (λ v. v.name) vs) ("data" ∷ [])) ≡ true)
unfolding names
tls_volume-names none key vs e = cc
tls_volume-names (some cert) none vs e = cc
tls_volume-names (some cert) (some key) vs e = rw (← ap (value_or vs) e) (refl, refl)

tls_volumes-names :
    (t : Option TlsSpec) (vs : List Volume)
    → tls_volumes t ≡ returned vs
    → All
        (λ m. names m.name ("config" ∷ append (map (λ v. v.name) vs) ("data" ∷ [])) ≡ true)
        (volume_mounts (is_some t))
unfolding volume_mounts names
tls_volumes-names none vs e = let same : vs ≡ [] = cc in rw same (refl, (refl, tt))
tls_volumes-names (some t) vs e =
    let (stored, certified) = tls_volume-names t.cert_secret t.key_secret vs e in
    (refl, (stored, (certified, tt)))

ports_where-names :
    (http_disabled grpc_disabled has_https : Bool) (https : ContainerPort)
    → https.name ≡ "https"
    → (not http_disabled || has_https) ≡ true
    → names (readiness_probe http_disabled has_https).port (
        map
          (λ q. q.name)
          (port_where (not http_disabled) (container_port "http" (pos 8080)) (
            port_where has_https https
              (port_where (not grpc_disabled) (container_port "grpc" (pos 4317)) []))))
      ≡ true
unfolding readiness_probe names
ports_where-names false g b https n h = refl
ports_where-names true g true https n h = rw n refl
ports_where-names true g false https n h = cc

container_ports-names :
    (K : Kube) (spec : TelemetrySpec K)
    → PortsReady spec
    → names
        (readiness_probe spec.http_disabled (not (is_zero_ℤ spec.service.https_port))).port
        (map (λ q. q.name) (container_ports K spec))
      ≡ true
unfolding container_ports
container_ports-names K spec ready =
    ports_where-names spec.http_disabled spec.grpc.disabled
      (not (is_zero_ℤ spec.service.https_port)) _ refl (ground (arith, ready.https))

module _ (K : Kube) (versions : Versions) (registry : RegistryConfig) where
  pub server_set-Declares :
      (cr : Telemetry K) (envs : ConfigEnvs) (hash : String) (tls : Outcome (List Volume))
      (claim : Outcome (PersistentVolumeClaim K)) (s : StatefulSet K)
      → tls_volumes cr.spec.tls ≡ tls
      → server_set K versions registry cr envs hash tls claim ≡ returned s
      → PortsReady cr.spec
      → Declares s
        × (s.meta.name ≡ cr.name ++ "-telemetry")
        × (s.replicas ≡ server_replicas cr.spec.replicas)
  server_set-Declares cr envs hash panicked claim s t e ready = cc
  server_set-Declares cr envs hash (returned tls) panicked s t e ready = cc
  server_set-Declares cr envs hash (returned tls) (returned claim) s t e ready =
      subst
        (λ x.
          Declares x
          × (x.meta.name ≡ cr.name ++ "-telemetry")
          × (x.replicas ≡ server_replicas cr.spec.replicas))
        (ap (value_or s) e)
        (
          record {
            mounts = (tls_volumes-names cr.spec.tls tls t, tt);
            probes = (container_ports-names K cr.spec ready, tt);
          },
          refl,
          refl,
        )

  -- The stateful set that telemetryStatefulSet returns for a resource whose ports are set declares
  -- all that its pod refers to: each mount is of a volume or a claim, and the port of the readiness
  -- probe is one of the container's.
  pub telemetry_stateful_set-Declares :
      (cr : Telemetry K) (envs : ConfigEnvs) (hash : String) (s : StatefulSet K)
      → PortsReady cr.spec
      → telemetry_stateful_set K versions registry cr envs hash ≡ returned s
      → Declares s
  unfolding telemetry_stateful_set
  telemetry_stateful_set-Declares cr envs hash s ready e =
      (server_set-Declares cr envs hash (tls_volumes cr.spec.tls) (first (telemetry_pvcs K cr)) s
        refl e ready).0
