-- ===== src/Lsp/Registry.antt =====
-- The registry of clients (internal/lsp/registry.go), under keys of a workspace and a language. Times are
-- in nanoseconds.
pub mod Sharing
use code_gen_sandbox.Prelude.Maps
use code_gen_sandbox.Lsp.Client.{Client, StartError, new_client}
use code_gen_sandbox.Lsp.Client.Requests.{Launch, start, Answer, shutdown}
use code_gen_sandbox.Prelude.{
  ltb, ◌==◌, if◌then◌else◌, ℤ, pos, negsuc, ℕ, zero, suc, ◌+◌, ◌*◌, ◌/◌, ◌^◌, Bool, true, false,
  Option, none, some, List, [], ◌∷◌, ◌++◌, Bytes, bytes_discrete,
}

abbrev pub second : ℕ
second = 10 ^ 9

abbrev pub default_idle_timeout : ℕ
default_idle_timeout = 10 * (60 * second)

-- `clients` holds the clients as they are now; `stopped` are those that were shut down.
pub record Registry : Type 0 where
  pub idle_timeout : ℕ
  pub clients : List (Bytes × Client)
  pub sweeping : Bool
  pub stopped : List Client

-- `NewRegistry`
unfoldable pub new_registry : ℤ → Registry
new_registry timeout = record {
  idle_timeout = elim timeout [
    | negsuc n ↦ default_idle_timeout
    | pos zero ↦ default_idle_timeout
    | pos (suc n) ↦ suc n
  ];
  clients = [];
  sweeping = false;
  stopped = [];
}

unfoldable pub client_key : Bytes → Bytes → Bytes
client_key workspace language = workspace ++ 0 ∷ language

pub data GetResult : Type 0 where
  not_configured : GetResult
  not_started : StartError → GetResult
  client : Client → GetResult

unfoldable pub or_new : Option Client → Client
or_new none = new_client
or_new (some c) = c

module _ (resolve : Bytes → List Bytes) where
  unfoldable pub get : Registry → Bytes → Bytes → Launch → Registry × GetResult
  get r workspace language launch = elim (resolve language) [
    | [] ↦ (r, not_configured)
    | bin ∷ args ↦
        let key = client_key workspace language in
        let (c, e) =
          start (or_new (Maps.lookup bytes_discrete key r.clients)) (bin ∷ args) launch in
        elim e [
          | some reason ↦ (
            record r { clients = Maps.remove bytes_discrete key r.clients; sweeping = true },
            not_started reason,
          )
          | none ↦ (
            record r { clients = Maps.insert bytes_discrete key c r.clients; sweeping = true },
            client c,
          )
        ]
  ]

-- `startSweeper`'s interval.
unfoldable pub sweep_interval : ℕ → ℕ
sweep_interval timeout =
    let half = timeout / 2 in
    let capped = if ltb (60 * second) half then 60 * second else half in
    if ltb capped second then second else capped

-- Whether `reapIdle` takes a client: it has been used, and not since the cutoff.
unfoldable pub is_idle : ℕ → ℕ → Client → Bool
is_idle now timeout c = if c.last_used == 0 then false else ltb (c.last_used + timeout) now

unfoldable pub idle_clients : ℕ → ℕ → List (Bytes × Client) → List (Bytes × Client)
idle_clients now timeout [] = []
idle_clients now timeout ((key, c) ∷ more) =
    let rest = idle_clients now timeout more in
    if is_idle now timeout c then (key, c) ∷ rest else rest

unfoldable pub busy_clients : ℕ → ℕ → List (Bytes × Client) → List (Bytes × Client)
busy_clients now timeout [] = []
busy_clients now timeout ((key, c) ∷ more) =
    let rest = busy_clients now timeout more in
    if is_idle now timeout c then rest else (key, c) ∷ rest

-- Whether the notification "exit" of a client's shutdown is written.
module _ (exit_written : Client → Bool) where
  unfoldable pub shutdown_all : List (Bytes × Client) → List Client
  shutdown_all [] = []
  shutdown_all ((key, c) ∷ more) =
      (shutdown c false Answer.cancelled (exit_written c)).0 ∷ shutdown_all more

  -- `Shutdown`
  unfoldable pub shutdown_registry : Registry → Registry
  shutdown_registry r = record r { clients = []; stopped = r.stopped ++ shutdown_all r.clients }

  -- `reapIdle`
  unfoldable pub reap_idle : Registry → ℕ → Registry
  reap_idle r now = record r {
    clients = busy_clients now r.idle_timeout r.clients;
    stopped = r.stopped ++ shutdown_all (idle_clients now r.idle_timeout r.clients);
  }
