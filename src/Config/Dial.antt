-- ===== src/Config/Dial.antt =====
-- config.go and plc.go: the connection that an accepted configuration leads to.
use text.Mathlib.Text.{◌==◌}
use gomc_rest.Common.{ℕ, ◌≡◌, refl, String, List, ok, if◌then◌else◌, inl, inr, ◌⊎◌}
use gomc_rest.Common.Text.{Text}
use gomc_rest.Plc.{Net, new_connection}
use gomc_rest.Config.{ServerConfig}
use gomc_rest.Config.Parse.{parse_config, plc_config}
use gomc_rest.Config.Valid.{IsValid-frame, parse_config-IsValid}

module _ {C W : Type 0} (net : Net C W) where
  dial-IsValid :
      (cfg : ServerConfig) (w : W)
      → (cfg.frame ≡ "3e") ⊎ ((cfg.frame ≡ "4e") × (cfg.transport ≡ "tcp"))
      → (new_connection net (plc_config cfg) w ≡ (
          if cfg.transport == "udp"
          then net.new_3e_udp cfg.host cfg.port cfg.ascii w
          else if cfg.frame == "4e"
          then net.new_4e cfg.host cfg.port cfg.ascii w
          else net.new_3e cfg.host cfg.port cfg.ascii w))
  unfolding new_connection plc_config
  dial-IsValid cfg w (inl three) = rw (three, new_connection) refl
  dial-IsValid cfg w (inr (four, tcp)) = rw (four, tcp, new_connection) refl

  -- The server that starts from an accepted configuration always has a frame and a transport that it
  -- supports: with udp it opens a 3E connection over udp, and else a 4E or a 3E connection as the
  -- frame says, to the configured host and port and in the configured mode.
  pub new_connection-parse_config :
      (fraction : ℕ → ℕ → ℕ → ℕ) (args : List Text) (lookup_env : String → Text)
      (cfg : ServerConfig) (w : W)
      → parse_config fraction args lookup_env ≡ ok cfg
      → new_connection net (plc_config cfg) w ≡ (
          if cfg.transport == "udp"
          then net.new_3e_udp cfg.host cfg.port cfg.ascii w
          else if cfg.frame == "4e"
          then net.new_4e cfg.host cfg.port cfg.ascii w
          else net.new_3e cfg.host cfg.port cfg.ascii w)
  new_connection-parse_config fraction args lookup_env cfg w e =
      dial-IsValid cfg w (IsValid-frame cfg (parse_config-IsValid fraction args lookup_env cfg e))
