-- ===== src/Plc/Simulator.antt =====
-- A PLC that keeps its words in memory, in place of the gomcprotocol package: a concrete `Net`. It
-- has no other devices, and its connections work if `up` is true.
use gomc_rest.Common.{none, ℕ, zero, suc, Bool, true, false, List, [], ◌∷◌, if◌then◌else◌, ok, err}
use gomc_rest.Common.Text.{Text, codes}
use gomc_rest.Device.{DeviceAddr}
use gomc_rest.Failure.{mc_connection, mc_protocol}
use gomc_rest.Metrics.{empty_ring}
use gomc_rest.Plc.{Act, Net, PlcConfig, Client}
use gomc_rest.Queue.Groups.{same_word}

-- The words, and the time.
pub record SimWorld : Type 0 where
  pub words : DeviceAddr → ℕ
  pub time : ℕ

abbrev pub device_at : Text → ℕ → DeviceAddr
device_at device addr = record { device = device; addr = addr }

abbrev pub words_from : SimWorld → Text → ℕ → ℕ → List ℕ
words_from w device start zero = []
words_from w device start (suc n) =
    w.words (device_at device start) ∷ words_from w device (suc start) n

abbrev pub store_word : SimWorld → DeviceAddr → ℕ → SimWorld
store_word w a v = record w { words = λ b. if same_word a b then v else w.words b }

abbrev pub store_words : SimWorld → Text → ℕ → List ℕ → SimWorld
store_words w device start [] = w
store_words w device start (v ∷ vs) =
    store_words (store_word w (device_at device start) v) device (suc start) vs

-- An operation needs a connection that works.
abbrev pub if_up : {A : Type 0} → Bool → Act SimWorld A → Act SimWorld A
if_up true act = act
if_up false act = λ w. (err (mc_connection (codes "reset by peer")), w)

abbrev pub no_such_device : {A : Type 0} → Act SimWorld A
no_such_device w = (err (mc_protocol 49242), w)

abbrev pub accepted : Act SimWorld (Unit {0})
accepted w = (ok tt, w)

abbrev pub sim_net : Bool → Net (Unit {0}) SimWorld
sim_net up = record {
  clock = λ w. w.time;
  new_3e_udp = λ host port ascii w. (ok tt, w);
  new_3e = λ host port ascii w. (ok tt, w);
  new_4e = λ host port ascii w. (ok tt, w);
  set_timeout = λ c timeout w. w;
  connect_to = λ c. accepted;
  read_words = λ c device start n. if_up up (λ w. (ok (words_from w device start n), w));
  write_words = λ c device start vs. if_up up (λ w. (ok tt, store_words w device start vs));
  read_bits = λ c device start n. if_up up no_such_device;
  write_bits = λ c device start vs. if_up up no_such_device;
  random_read = λ c words dwords. if_up up no_such_device;
  random_write = λ c words vals dwords dvals. if_up up no_such_device;
  random_write_bits = λ c bits vals. if_up up no_such_device;
  remote_run = λ c clear force. if_up up accepted;
  remote_stop = λ c. if_up up accepted;
  remote_pause = λ c force. if_up up accepted;
  remote_latch_clear = λ c. if_up up accepted;
  remote_reset = λ c. if_up up accepted;
  close = λ c w. w;
}

abbrev pub sim_config : PlcConfig
sim_config = record {
  host = codes "192.168.0.10";
  port = 5007;
  ascii = false;
  frame = "3e";
  transport = "tcp";
  timeout = 5000000000;
}

abbrev pub sim_world : SimWorld
sim_world = record { words = λ a. a.addr; time = 0 }

-- The client of `NewPLCClient`, before its first connection.
abbrev pub sim_client : Client (Unit {0}) SimWorld
sim_client = record {
  conn = none;
  metrics = record {
    requests = 0;
    reconnects = 0;
    timeouts = 0;
    plc_errors = 0;
    total_ns = 0;
    recent = empty_ring;
  };
  env = record { world = sim_world; wire_ns = 0 };
  states = [];
}
