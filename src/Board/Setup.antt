-- ===== src/Board/Setup.antt =====
-- `init_server` and the start of `main` in HW1/server.c, and `init_client` in HW1/client.c. The results of
-- the calls of the system are given: a descriptor, with `none` for a failure, or whether the call succeeds.
use ntu_systems_programming.Prelude.{ℕ, ◌%◌, ◌^◌, Bool, true, false, Option, none, some, ◌==◌}
use ntu_systems_programming.Prelude.Text.{Memory}
use ntu_systems_programming.Board.Server.{Server}
use ntu_systems_programming.Board.Client.{port_of}
use ntu_systems_programming.Board.Connections.{Main, init_requests}

-- The calls of `ERR_EXIT`, by their messages.
pub data Fault : Type 0 where
  usage socket_fails setsockopt_fails bind_fails listen_fails out_of_memory : Fault
  invalid_port invalid_ip connect_fails : Fault

pub data Setup {ℓ} (A : Type ℓ) : Type ℓ where
  stops : Fault → Setup A
  sets_up : A → Setup A

-- What the system answers to `init_server`: `socket`, `setsockopt`, `bind`, `listen`, `getdtablesize` and
-- `malloc`.
pub record ServerCalls : Type 0 where
  pub socket : Option ℕ
  pub sets_option : Bool
  pub binds : Bool
  pub listens : Bool
  pub maxfd : ℕ
  pub allocates : Bool

-- `svr`, and the table of requests.
pub record Listener : Type 0 where
  pub port : ℕ
  pub listen_fd : ℕ
  pub maxfd : ℕ
  pub requests : ℕ → Option ℕ

-- `if (… < 0) ERR_EXIT(…);` before the rest.
abbrev pub require {ℓ} : {A : Type ℓ} → Bool → Fault → Setup A → Setup A
require true fault rest = rest
require false fault rest = stops fault

unfoldable pub init_server : ℕ → ServerCalls → Setup Listener
init_server port c = elim c.socket [
  | none ↦ stops socket_fails
  | some fd ↦ require c.sets_option setsockopt_fails (
      require c.binds bind_fails (
        require c.listens listen_fails (
          require c.allocates out_of_memory (
            sets_up (record {
              port = port;
              listen_fd = fd;
              maxfd = c.maxfd;
              requests = init_requests fd;
            })))))
]

-- The globals and the file when the loop of `main` begins; `all` is a new block.
abbrev pub opened : Memory → Memory → ℕ → Server
opened all db db_size = record {
  all = all;
  last_next = 0;
  locked = λ _. false;
  db = db;
  db_size = db_size;
  offset = 0;
}

-- `main` of the server up to its loop: `value` is what `atoi` makes of the argument, a 32-bit pattern.
unfoldable pub server_main : ℕ → ℕ → ServerCalls → Server → Setup (Listener × Main)
unfolding init_server
server_main argc value c s = require (argc == 2) usage (elim (init_server (value % 2 ^ 16) c) [
  | stops f ↦ stops f
  | sets_up l ↦ sets_up (l, record { server = s; requests = l.requests })
])

-- What the system answers to `init_client`: `socket`, `inet_pton` and `connect`.
pub record ClientCalls : Type 0 where
  pub socket : Option ℕ
  pub reads_ip : Bool
  pub connects : Bool

-- `cli`, and the port that it has connected to.
pub record Connection : Type 0 where
  pub port : ℕ
  pub conn_fd : ℕ

unfoldable pub init_client : ℕ → ClientCalls → Setup Connection
init_client value c = elim (port_of value) [
  | none ↦ stops invalid_port
  | some port ↦ elim c.socket [
    | none ↦ stops socket_fails
    | some fd ↦
        require c.reads_ip invalid_ip
          (require c.connects connect_fails (sets_up (record { port = port; conn_fd = fd })))
  ]
]
