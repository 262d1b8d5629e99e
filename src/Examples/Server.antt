-- ===== src/Examples/Server.antt =====
-- A language server: frames, calls and registry (internal/lsp).
use code_gen_sandbox.Prelude.Maps
use code_gen_sandbox.Lsp.Wire.{read_header, out_of_fuel, read_all, write_message}
use code_gen_sandbox.Lsp.Wire.Ends.{Reads, read_all-ends}
use code_gen_sandbox.Lsp.Wire.RoundTrip.{read_all-write}
use code_gen_sandbox.Lsp.Client
use code_gen_sandbox.Lsp.Client.{
  Client, Reply, result, failure, Sent, request, notification, new_client, fail_all_inflight, Step,
  reserving, entering, delivering, failing, run, reply_of,
}
use code_gen_sandbox.Lsp.Client.Calls.{count_id, count_sends, run-sends, fail_all_inflight_lem}
use code_gen_sandbox.Lsp.Client.Requests.{
  Answer, replied, cancelled, ok, call, notified, Launch, shutdown, start, do_start, handshake,
}
use code_gen_sandbox.Lsp.Client.Returns.{call_lem, shutdown_lem}
use code_gen_sandbox.Lsp.Registry
use code_gen_sandbox.Lsp.Registry.{client_key, Registry, client, get, reap_idle}
use code_gen_sandbox.Lsp.Registry.Sharing.{IsBusy, get-again, reap_idle_lem}
use code_gen_sandbox.Prelude.{
  ◌==◌, if◌then◌else◌, All, ◌+◌, ◌≤◌, ◌<◌, ◌≡◌, refl, ◌≢◌, ◌⊎◌, true, false, none, some, List, [],
  ◌∷◌, ◌++◌, map, flatten, arith, ℕ_discrete, Bytes, codes, bytes_discrete,
}

abbrev drop_space : Bytes → Bytes
drop_space [] = []
drop_space (c ∷ s) = if c == 32 then s else c ∷ s

abbrev bodies : List Bytes
bodies = codes "{}" ∷ codes "[1]" ∷ []

read_all-write_example :
    read_all drop_space (flatten (map write_message bodies)) ≡ (bodies, read_header)
read_all-write_example =
    read_all-write drop_space (λ n. refl) bodies (omega arith, (omega arith, tt))

read_all-ends_example :
    let (read, e) = read_all drop_space (codes "Content-Length: 2") in
    Reads drop_space (codes "Content-Length: 2") read e × (e ≢ out_of_fuel)
read_all-ends_example = read_all-ends drop_space (codes "Content-Length: 2")

abbrev one_call : List Step
one_call = reserving ∷ entering 1 ∷ []

abbrev answered_call : List Step
answered_call =
    reserving ∷ entering 1 ∷ delivering 1 (result (codes "r")) ∷ failing (codes "eof") ∷ []

run-sends_example :
    count_id 1 (run new_client answered_call).inflight
      + count_sends 1 (run new_client answered_call).replies
    ≤ 1
run-sends_example = run-sends answered_call 1

waiting_one : Client.has_id 1 (run new_client one_call).inflight ≡ true
unfolding Client.has_id run Client.step Client.reserve Client.enter new_client Client.remove_id
waiting_one = refl

fail_all_inflight_lem_example :
    (reply_of (fail_all_inflight (run new_client one_call) (codes "eof")) 1
      ≡ some (failure (codes "eof")))
    × ((fail_all_inflight (run new_client one_call) (codes "eof")).inflight ≡ [])
    × ((fail_all_inflight (run new_client one_call) (codes "eof")).closed ≡ true)
fail_all_inflight_lem_example = fail_all_inflight_lem one_call 1 (codes "eof") waiting_one

new_client_open : new_client.closed ≡ false
unfolding new_client
new_client_open = refl

new_client_once : Client.Calls.OnceAt (new_client.next_id + 1) new_client
unfolding new_client count_id count_sends
new_client_once = omega arith

call_lem_example :
    ((call new_client (codes "m") (some (codes "{}")) true (replied (result (codes "r")) 5)).1
      ≡ ok (codes "r"))
    × (count_id
          (new_client.next_id + 1)
          (call new_client
            (codes "m")
            (some (codes "{}"))
            true
            (replied (result (codes "r")) 5)).0.inflight
        ≡ 0)
call_lem_example =
    call_lem new_client (codes "m") (codes "{}") (replied (result (codes "r")) 5) new_client_open
      new_client_once

abbrev piped : Client
piped = record new_client { has_stdin = true }

shutdown_lem_example :
    ((shutdown piped true cancelled true).0.sent ≡ (
      if piped.has_stdin
      then piped.sent ++ notification (codes "exit") (codes "null") ∷ []
      else piped.sent))
    × ((shutdown piped true cancelled true).1
        ≡ (if piped.has_stdin then notified else Client.Requests.crashed))
shutdown_lem_example = shutdown_lem piped true cancelled new_client_open

abbrev gopls : Bytes → List Bytes
gopls language = codes "gopls" ∷ []

abbrev works : Launch
works = record {
  spawn_error = none;
  params = some (codes "{}");
  init_written = true;
  init_answer = replied (result (codes "i")) 7;
  notify_params = some (codes "{}");
  notify_written = true;
}

abbrev empty : Registry
empty = record { idle_timeout = 10; clients = []; sweeping = false; stopped = [] }

abbrev opened : Client
opened = record {
  started = some none;
  has_stdin = true;
  sent =
      request 1 (codes "initialize") (codes "{}")
      ∷ notification (codes "initialized") (codes "{}")
      ∷ [];
  next_id = 1;
  reserved = [];
  inflight = [];
  replies = (1, result (codes "i")) ∷ [];
  closed = false;
  last_used = 7;
  opened = [];
}

got_opened : (get gopls empty (codes "/w") (codes "go") works).1 ≡ client opened
unfolding get start do_start handshake call Client.Requests.await Client.Requests.receive
    Client.Requests.notify Client.reserve Client.enter Client.deliver Client.has_id Client.remove_id
    reply_of new_client Registry.or_new Maps.lookup ℕ_discrete
got_opened = refl

get-again_example :
    let after = (get gopls empty (codes "/w") (codes "go") works).0 in
    (get gopls after (codes "/w") (codes "go") works ≡ (after, client opened))
    × ((key : Bytes)
        → (key ≡ client_key (codes "/w") (codes "go"))
          ⊎ (Maps.lookup bytes_discrete key after.clients
              ≡ Maps.lookup bytes_discrete key empty.clients))
get-again_example = get-again gopls empty (codes "/w") (codes "go") works works opened got_opened

abbrev shared : Registry
shared = record empty { clients = (codes "k", opened) ∷ [] }

reap_idle_lem_example :
    All (λ e. IsBusy 17 10 e.1) (reap_idle (λ c. true) shared 17).clients
    × ((Maps.lookup bytes_discrete (codes "k") shared.clients ≡ none)
        ⊎ ((c : Client) × (Maps.lookup bytes_discrete (codes "k") shared.clients ≡ some c)
            × (((c.last_used ≢ 0) × (c.last_used + 10 < 17))
                ⊎ (Maps.lookup bytes_discrete (codes "k") (reap_idle (λ c. true) shared 17).clients
                    ≡ some c))))
reap_idle_lem_example = reap_idle_lem (λ c. true) shared 17 (codes "k")
