-- ===== src/Lsp/Client.antt =====
-- The client of one language server (internal/lsp/client.go). A call's channel is named by the call's
-- id; `replies` are the sends on the channels, each of which holds one reply. `sent` is what is
-- written to the server. The steps of calls that run at the same time may stand in any order.
pub mod Calls
pub mod Requests
pub mod Returns
pub mod Locations
use code_gen_sandbox.Prelude.Maps
use code_gen_sandbox.Prelude.{
  ◌==◌, if◌then◌else◌, ℕ, ◌+◌, Bool, true, false, Option, none, List, [], ◌∷◌, ◌++◌, ℕ_discrete,
  Bytes,
}

pub data Reply : Type 0 where
  result : Bytes → Reply
  failure : Bytes → Reply

pub data Sent : Type 0 where
  request : ℕ → Bytes → Bytes → Sent
  notification : Bytes → Bytes → Sent

-- Why a call fails; `blocked` would be a call that waits for ever.
pub data CallError : Type 0 where
  client_closed : CallError
  not_marshalled : CallError
  not_written : CallError
  server_error : Bytes → CallError
  context_done : CallError
  blocked : CallError

pub data StartError : Type 0 where
  empty_argv : StartError
  not_spawned : Bytes → StartError
  not_initialized : CallError → StartError
  not_notified : StartError

-- `reserved` are the calls that have passed the test of `closed` and taken an id, and not entered
-- their channel yet. `started` is the result of the first `Start`, `last_used` is 0 before the first
-- success.
pub record Client : Type 0 where
  pub started : Option (Option StartError)
  pub has_stdin : Bool
  pub sent : List Sent
  pub next_id : ℕ
  pub reserved : List ℕ
  pub inflight : List ℕ
  pub replies : List (ℕ × Reply)
  pub closed : Bool
  pub last_used : ℕ
  pub opened : List Bytes

-- `NewClient`
unfoldable pub new_client : Client
new_client = record {
  started = none;
  has_stdin = false;
  sent = [];
  next_id = 0;
  reserved = [];
  inflight = [];
  replies = [];
  closed = false;
  last_used = 0;
  opened = [];
}

unfoldable pub has_id : ℕ → List ℕ → Bool
has_id i [] = false
has_id i (j ∷ js) = if i == j then true else has_id i js

-- `delete`
unfoldable pub remove_id : ℕ → List ℕ → List ℕ
remove_id i [] = []
remove_id i (j ∷ js) = let rest = remove_id i js in if i == j then rest else j ∷ rest

-- The first lines of `call`: nothing where the client is closed, an id otherwise.
unfoldable pub reserve : Client → Client
reserve c =
    if c.closed
    then c
    else record c { next_id = c.next_id + 1; reserved = c.reserved ++ (c.next_id + 1) ∷ [] }

-- A reserved call whose parameters are not marshalled ends.
unfoldable pub give_up : Client → ℕ → Client
give_up c id = record c { reserved = remove_id id c.reserved }

-- A reserved call enters its channel.
unfoldable pub enter : Client → ℕ → Client
enter c id =
    if has_id id c.reserved
    then (record c { reserved = remove_id id c.reserved; inflight = c.inflight ++ id ∷ [] })
    else c

-- A call whose request is not written, or whose context is done.
unfoldable pub abandon : Client → ℕ → Client
abandon c id = record c { inflight = remove_id id c.inflight }

unfoldable pub deliver : Client → ℕ → Reply → Client
deliver c id resp =
    if has_id id c.inflight
    then (record c { inflight = remove_id id c.inflight; replies = c.replies ++ (id, resp) ∷ [] })
    else c

unfoldable pub fail_all : List ℕ → Bytes → List (ℕ × Reply)
fail_all [] e = []
fail_all (id ∷ ids) e = (id, failure e) ∷ fail_all ids e

unfoldable pub fail_all_inflight : Client → Bytes → Client
fail_all_inflight c e = record c {
  closed = true;
  inflight = [];
  replies = c.replies ++ fail_all c.inflight e;
}

-- The steps of the calls, of the read loop and of `Shutdown`.
pub data Step : Type 0 where
  reserving : Step
  giving_up : ℕ → Step
  entering : ℕ → Step
  abandoning : ℕ → Step
  delivering : ℕ → Reply → Step
  failing : Bytes → Step
  closing : Step

unfoldable pub step : Client → Step → Client
step c reserving = reserve c
step c (giving_up id) = give_up c id
step c (entering id) = enter c id
step c (abandoning id) = abandon c id
step c (delivering id resp) = deliver c id resp
step c (failing e) = fail_all_inflight c e
step c closing = record c { closed = true }

unfoldable pub run : Client → List Step → Client
run c [] = c
run c (s ∷ steps) = run (step c s) steps

-- What the call receives on its channel.
unfoldable pub reply_of : Client → ℕ → Option Reply
reply_of c id = Maps.lookup ℕ_discrete id c.replies
