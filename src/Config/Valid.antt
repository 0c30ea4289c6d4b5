-- ===== src/Config/Valid.antt =====
-- config.go: what a configuration that `parseConfig` accepts is like.
use text.Mathlib.Text.{◌==◌}
use gomc_rest.Common.{
  ◌∷◌, ℕ, ◌^◌, ◌≤◌, ◌<◌, ◌≡◌, ◌⊎◌, inl, inr, arith, String, Bool, true, false, ◌&&◌, Option, none,
  some, List, [], ◌∷◌, if◌then◌else◌, Result, ok, fail_if, Ensures, of_ok, bind-Ensures,
  then-Ensures, Ensures-ok,
}
use gomc_rest.Common.Int.{pos}
use gomc_rest.Common.Text.{signed_of, Text, codes, text_eq_iff, parse_int, parse_uint, in_int64}
use gomc_rest.Common.Duration.Ends.{parse_duration-bound}
use gomc_rest.Config.{
  bool_setting, text_setting, parse_flags, the_log_file_level, invalid_log_file_level,
  the_log_level, invalid_log_level, the_timeout, the_queue_size, the_transport, the_frame, the_mode,
  the_port, the_enable_remote, the_readonly, udp_with_4e, ServerConfig, ConfigError, Setting,
}
use gomc_rest.Config.Parse.{
  parse_config, the_level, parse_port, parse_mode, parse_frame, parse_transport, parse_queue_size,
  parse_timeout, configure,
}

pub IsValid : ServerConfig → Type 0
IsValid cfg =
    (1 ≤ cfg.port)
    × (cfg.port ≤ 65535)
    × (0 < cfg.queue_size)
    × (cfg.queue_size < 2 ^ 63)
    × (0 < cfg.timeout)
    × (cfg.timeout < 2 ^ 63)
    × ((cfg.frame ≡ "3e") ⊎ ((cfg.frame ≡ "4e") × (cfg.transport ≡ "tcp")))
    × ((cfg.transport ≡ "tcp") ⊎ (cfg.transport ≡ "udp"))
    × (cfg.mode_string ≡ (if cfg.ascii then codes "ascii" else codes "binary"))

pub IsValid-frame :
    (cfg : ServerConfig)
    → IsValid cfg
    → (cfg.frame ≡ "3e") ⊎ ((cfg.frame ≡ "4e") × (cfg.transport ≡ "tcp"))
unfolding IsValid
IsValid-frame cfg valid = valid.6

in_int64-bound : (neg : Bool) (r : Option ℕ) (n : ℕ) → signed_of neg r ≡ some (pos n) → n < 2 ^ 63
unfolding in_int64
in_int64-bound neg none n e = ground arith
in_int64-bound true (some m) n e = ground arith
in_int64-bound false (some m) n e = ground arith

parse_int-bound : (s : Text) (n : ℕ) → parse_int 10 s ≡ some (pos n) → n < 2 ^ 63
unfolding parse_int
parse_int-bound [] n e = ground arith
parse_int-bound (c ∷ s) n e = ground (
  arith,
  in_int64-bound true (parse_uint 10 s) n,
  in_int64-bound false (parse_uint 10 s) n,
  in_int64-bound false (parse_uint 10 (c ∷ s)) n,
)

parse_port-bounds : (s : Text) (n : ℕ) → parse_port s ≡ ok n → (1 ≤ n) × (n ≤ 65535)
unfolding parse_port
parse_port-bounds s n e = ground arith

parse_queue_size-bounds : (s : Text) (n : ℕ) → parse_queue_size s ≡ ok n → (0 < n) × (n < 2 ^ 63)
unfolding parse_queue_size
parse_queue_size-bounds s n e = ground (arith, parse_int-bound s n)

parse_frame-frames : (s : Text) (f : String) → parse_frame s ≡ ok f → (f ≡ "3e") ⊎ (f ≡ "4e")
unfolding parse_frame
parse_frame-frames s f e = ground arith

parse_transport-transports :
    (s : Text) (t : String) → parse_transport s ≡ ok t → (t ≡ "tcp") ⊎ (t ≡ "udp")
unfolding parse_transport
parse_transport-transports s t e = ground arith

parse_mode-modes :
    (s : Text) (ascii : Bool)
    → parse_mode s ≡ ok ascii
    → s ≡ (if ascii then codes "ascii" else codes "binary")
unfolding parse_mode
parse_mode-modes s ascii e =
    ground (arith, text_eq_iff s (codes "ascii"), text_eq_iff s (codes "binary"))

never :
    {frame transport : String}
    → frame ≡ "4e"
    → transport ≡ "udp"
    → ¬ (fail_if (frame == "4e" && transport == "udp") udp_with_4e ≡ ok tt)
never four udp = rw (four, udp) (λ e. ground arith)

-- The check of the frame and the transport together.
frame_and_transport :
    (frame transport : String)
    → (frame ≡ "3e") ⊎ (frame ≡ "4e")
    → (transport ≡ "tcp") ⊎ (transport ≡ "udp")
    → fail_if (frame == "4e" && transport == "udp") udp_with_4e ≡ ok tt
    → (frame ≡ "3e") ⊎ ((frame ≡ "4e") × (transport ≡ "tcp"))
frame_and_transport frame transport (inl three) t e = inl three
frame_and_transport frame transport (inr four) (inl tcp) e = inr (four, tcp)
frame_and_transport frame transport (inr four) (inr udp) e = absurd (never four udp e)

module _ (fraction : ℕ → ℕ → ℕ → ℕ) where
  parse_timeout-bounds :
      (s : Text) (n : ℕ) → parse_timeout fraction s ≡ ok n → (0 < n) × (n < 2 ^ 63)
  unfolding parse_timeout
  parse_timeout-bounds s n e = ground (arith, parse_duration-bound fraction s n)

  configure-IsValid :
      (text : Setting → Text) (bool : Setting → Result ConfigError Bool)
      → Ensures IsValid (configure fraction text bool)
  unfolding configure IsValid
  configure-IsValid text bool = bind-Ensures (bool the_readonly) (λ readonly _.
      bind-Ensures (bool the_enable_remote) (λ enable_remote _.
        bind-Ensures (parse_port (text the_port)) (λ port is_port.
          bind-Ensures (parse_mode (text the_mode)) (λ ascii is_mode.
            bind-Ensures (parse_frame (text the_frame)) (λ frame is_frame.
              bind-Ensures (parse_transport (text the_transport)) (λ transport is_transport.
                then-Ensures (fail_if (frame == "4e" && transport == "udp") udp_with_4e) (λ fits.
                  bind-Ensures (parse_queue_size (text the_queue_size)) (λ queue_size is_size.
                    bind-Ensures (parse_timeout fraction (text the_timeout)) (λ timeout is_time.
                      bind-Ensures (the_level invalid_log_level (text the_log_level))
                        (λ log_level _.
                          bind-Ensures {P = IsValid}
                            (the_level invalid_log_file_level (text the_log_file_level))
                            (λ log_file_level _.
                              let (least, most) = parse_port-bounds (text the_port) port is_port in
                              let (some_size, size_fits) =
                                parse_queue_size-bounds (text the_queue_size) queue_size is_size in
                              let (some_time, time_fits) =
                                parse_timeout-bounds (text the_timeout) timeout is_time in
                              let frames = parse_frame-frames (text the_frame) frame is_frame in
                              let transports =
                                parse_transport-transports (text the_transport) transport
                                  is_transport in
                              of_ok (
                                least,
                                most,
                                some_size,
                                size_fits,
                                some_time,
                                time_fits,
                                frame_and_transport frame transport frames transports fits,
                                transports,
                                parse_mode-modes (text the_mode) ascii is_mode,
                              ))))))))))))

  -- A configuration that `parseConfig` accepts has a port from 1 to 65535, a queue of at least one
  -- place and a timeout above zero, both within 63 bits, the frame 3e, or 4e over tcp, the transport
  -- tcp or udp, and the mode that its text names; whatever the arguments and the environment.
  pub parse_config-IsValid :
      (args : List Text) (lookup_env : String → Text) (cfg : ServerConfig)
      → parse_config fraction args lookup_env ≡ ok cfg
      → IsValid cfg
  unfolding parse_config
  parse_config-IsValid args lookup_env cfg e =
      Ensures-ok
        (bind-Ensures {P = IsValid} (parse_flags args) (λ given _.
          configure-IsValid (text_setting lookup_env given) (bool_setting lookup_env given)))
        e
