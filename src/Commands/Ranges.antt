-- ===== src/Commands/Ranges.antt =====
-- The ports of the mesh under the flags.
use maesh.Common.{ℕ, suc, ◌+◌, ◌≤◌, ◌<◌, String, ◌≡◌, refl, arith, lookup, nat_eq}
use maesh.Api.{Api}
use maesh.Controller.PortMapping
use maesh.Controller.PortMapping.{PortMapping}
use maesh.Controller.Shadow.State.{IsSound, IsReady}
use maesh.Controller.Worker.{Config, new_mesh_controller}
use maesh.Controller.Worker.Entrypoints.{SameRange}
use maesh.Commands.{
  MeshConfiguration, controller_config, get_max_port, min_http_port, min_tcp_port, min_udp_port,
}

-- The limits that leave the three ranges apart: at least one port, and at most the five thousand that lie
-- between the starts of the ranges.
pub record IsLimited (config : MeshConfiguration) : Type 0 where
  pub http_some : 0 < config.limit_http_port
  pub http_few : config.limit_http_port ≤ 5000
  pub tcp_some : 0 < config.limit_tcp_port
  pub tcp_few : config.limit_tcp_port ≤ 5000
  pub udp_some : 0 < config.limit_udp_port
  pub udp_few : config.limit_udp_port ≤ 5000

-- The ranges have as many ports as the flags say, and no port lies in two of them.
pub record IsSeparate (config : MeshConfiguration) (cfg : Config) : Type 0 where
  pub http_size : cfg.min_http_port + config.limit_http_port ≡ suc cfg.max_http_port
  pub tcp_size : cfg.min_tcp_port + config.limit_tcp_port ≡ suc cfg.max_tcp_port
  pub udp_size : cfg.min_udp_port + config.limit_udp_port ≡ suc cfg.max_udp_port
  pub http_below_tcp : cfg.max_http_port < cfg.min_tcp_port
  pub tcp_below_udp : cfg.max_tcp_port < cfg.min_udp_port

get_max_port_lem :
    (min limit : ℕ)
    → min ≤ 20000
    → 0 < limit
    → limit ≤ 5000
    → suc (get_max_port min limit) ≡ min + limit
unfolding get_max_port
get_max_port_lem min limit m l h = omega arith

new-IsSound :
    (namespace : String) (min limit : ℕ)
    → min ≤ 20000
    → 0 < limit
    → limit ≤ 5000
    → IsSound (PortMapping.new namespace min (get_max_port min limit))
unfolding PortMapping.new lookup
new-IsSound namespace min limit m l h = record {
  valid = record { unique = tt; single = λ q r v e e'. cc e; ranged = λ q v e. cc e };
  bounded = record { low = omega arith; high = omega (arith, get_max_port_lem min limit m l h) };
}

-- With limits between one and five thousand, the mesh command gives the controller three ranges of as many
-- ports as the flags say, which do not overlap; the controller starts with sound state tables; and the
-- shadow services and the provider are given the same HTTP ports.
pub controller_config-IsReady :
    {Queue : Type 0} (config : MeshConfiguration) (queue : Queue) (store : Api)
    → IsLimited config
    → IsSeparate config (controller_config config)
      × IsReady (new_mesh_controller (controller_config config) queue store).manager
      × SameRange
          (controller_config config)
          (new_mesh_controller (controller_config config) queue store).manager
unfolding controller_config new_mesh_controller
controller_config-IsReady config queue store l =
    let http =
      get_max_port_lem min_http_port config.limit_http_port (omega arith) l.http_some l.http_few in
    let tcp =
      get_max_port_lem min_tcp_port config.limit_tcp_port (omega arith) l.tcp_some l.tcp_few in
    let udp =
      get_max_port_lem min_udp_port config.limit_udp_port (omega arith) l.udp_some l.udp_few in
    (
      record {
        http_size = omega (arith, http);
        tcp_size = omega (arith, tcp);
        udp_size = omega (arith, udp);
        http_below_tcp = omega (arith, http, l.http_few);
        tcp_below_udp = omega (arith, tcp, l.tcp_few);
      },
      record {
        tcp_sound =
            new-IsSound config.namespace min_tcp_port config.limit_tcp_port (omega arith) l.tcp_some
              l.tcp_few;
        udp_sound =
            new-IsSound config.namespace min_udp_port config.limit_udp_port (omega arith) l.udp_some
              l.udp_few;
      },
      record { min_same = refl; max_same = refl },
    )
