-- ===== src/Lsp/Client/Requests.antt =====
-- The requests of one caller (internal/lsp/client.go): `call`, `notify`, the start, the queries and
-- the shutdown. What the server and the system do is an argument; paths, files and JSON are
-- parameters.
use code_gen_sandbox.Lsp.Client.{
  Client, Reply, result, failure, request, notification, CallError, client_closed, not_marshalled,
  not_written, server_error, context_done, blocked, StartError, empty_argv, not_spawned,
  not_initialized, not_notified, reserve, give_up, enter, abandon, deliver, fail_all_inflight,
  reply_of,
}
use code_gen_sandbox.Prelude.{
  if◌then◌else◌, ℤ, pos, negsuc, ℕ, zero, suc, ite, Bool, true, Option, none, some, List, [], ◌∷◌,
  ◌++◌, Bytes, codes, bytes_discrete, has_text,
}

-- What ends the wait of a call: a response at a time, the end of the read loop with an error, or the
-- end of the caller's context.
pub data Answer : Type 0 where
  replied : Reply → ℕ → Answer
  ended : Bytes → Answer
  cancelled : Answer

pub data CallResult : Type 0 where
  ok : Bytes → CallResult
  err : CallError → CallResult

-- The first case of the `select` in `call`.
unfoldable pub receive : Client → ℕ → ℕ → Client × CallResult
receive c id now = elim (reply_of c id) [
  | none ↦ (c, err blocked)
  | some (failure e) ↦ (c, err (server_error e))
  | some (result r) ↦ (record c { last_used = now }, ok r)
]

unfoldable pub await : Client → ℕ → Answer → Client × CallResult
await c id (replied resp now) = receive (deliver c id resp) id now
await c id (ended e) = receive (fail_all_inflight c e) id 0
await c id cancelled = (abandon c id, err context_done)

-- `params` is what `json.Marshal` gives; `written` says whether the write succeeds.
-- The client has a pipe, as one that `Get` of the registry gives; Shutdown's call ends at `closed`.
unfoldable pub call : Client → Bytes → Option Bytes → Bool → Answer → Client × CallResult
call c method params written answer =
    if c.closed
    then (c, err client_closed)
    else let r = reserve c in
      elim params [
        | none ↦ (give_up r r.next_id, err not_marshalled)
        | some p ↦
            let w = enter r r.next_id in
            if written
            then await (record w { sent = w.sent ++ request r.next_id method p ∷ [] }) r.next_id
                answer
            else (abandon w r.next_id, err not_written)
      ]

-- A write to a client without a pipe is a call of a nil interface.
pub data NotifyResult : Type 0 where
  notified : NotifyResult
  not_sent : NotifyResult
  crashed : NotifyResult

unfoldable pub notify : Client → Bytes → Option Bytes → Bool → Client × NotifyResult
notify c method params written = elim params [
  | none ↦ (c, not_sent)
  | some p ↦
      if c.has_stdin
      then if written
        then (record c { sent = c.sent ++ notification method p ∷ [] }, notified)
        else (c, not_sent)
      else (c, crashed)
]

-- How a server starts: the error of the spawn, what `initialize` is answered and whether the two
-- messages are written.
pub record Launch : Type 0 where
  pub spawn_error : Option Bytes
  pub params : Option Bytes
  pub init_written : Bool
  pub init_answer : Answer
  pub notify_params : Option Bytes
  pub notify_written : Bool

unfoldable pub handshake : Client → Launch → Client × Option StartError
handshake c l =
    let (c', got) = call c (codes "initialize") l.params l.init_written l.init_answer in
    elim got [
      | err e ↦ (c', some (not_initialized e))
      | ok r ↦
          let (c'', sent) = notify c' (codes "initialized") l.notify_params l.notify_written in
          elim sent [ notified ↦ (c'', none) | _ ↦ (c'', some not_notified) ]
    ]

unfoldable pub do_start : Client → List Bytes → Launch → Client × Option StartError
do_start c [] l = (c, some empty_argv)
do_start c (bin ∷ args) l = elim l.spawn_error [
  | some e ↦ (c, some (not_spawned e))
  | none ↦ handshake (record c { has_stdin = true }) l
]

-- `Start`: the first result is kept.
unfoldable pub start : Client → List Bytes → Launch → Client × Option StartError
start c argv l = elim c.started [
  | some e ↦ (c, e)
  | none ↦ let (c', e) = do_start c argv l in (record c' { started = some e }, e)
]

-- `languageIDForFile`, of the extension.
unfoldable pub language_id : Bytes → Bytes
language_id ext = ite (bytes_discrete ext (codes ".go")) (codes "go") (
    ite (bytes_discrete ext (codes ".py")) (codes "python") (
      ite (bytes_discrete ext (codes ".rs")) (codes "rust") (
        ite (bytes_discrete ext (codes ".ts")) (codes "typescript") (
          ite (bytes_discrete ext (codes ".tsx")) (codes "typescriptreact") (
            ite (bytes_discrete ext (codes ".js")) (codes "javascript")
              (ite (bytes_discrete ext (codes ".jsx")) (codes "javascriptreact") []))))))

-- A query's position, from 1 to 0.
unfoldable pub sub_one : ℤ → ℤ
sub_one (pos zero) = negsuc 0
sub_one (pos (suc n)) = pos n
sub_one (negsuc n) = negsuc (suc n)

-- The paths, the files, and the marshalled parameters of each kind of message.
pub record Files : Type 0 where
  pub abs_file : Bytes → Bytes
  pub ext : Bytes → Bytes
  pub path_to_uri : Bytes → Bytes
  pub read_file : Bytes → Option Bytes
  pub did_open_params : Bytes → Bytes → Bytes → Option Bytes
  pub position_params : Bytes → ℤ → ℤ → Option Bytes
  pub reference_params : Bytes → ℤ → ℤ → Option Bytes
  pub rename_params : Bytes → ℤ → ℤ → Bytes → Option Bytes

pub data QueryResult : Type 0 where
  answered : Bytes → QueryResult
  start_failed : StartError → QueryResult
  call_failed : CallError → QueryResult

module _ (files : Files) where
  unfoldable pub ensure_open : Client → Bytes → Bool → Client
  ensure_open c file written =
      let abs = files.abs_file file in
      if has_text abs c.opened
      then c
      else let m = record c { opened = c.opened ++ abs ∷ [] } in
        elim (files.read_file abs) [
          | none ↦ m
          | some content ↦
              if m.has_stdin
              then (notify m (codes "textDocument/didOpen")
                  (files.did_open_params (files.path_to_uri abs) (language_id (files.ext file))
                    content)
                  written).0
              else m
        ]

  -- The common steps of the queries: start, open, call.
  unfoldable pub query :
      Client
      → List Bytes
      → Launch
      → Bytes
      → Bool
      → Bytes
      → Option Bytes
      → Bool
      → Answer
      → Client × QueryResult
  query c argv l file open_written method params written answer =
      let (c', started) = start c argv l in
      elim started [
        | some e ↦ (c', start_failed e)
        | none ↦
            let (c'', got) = call (ensure_open c' file open_written) method params written answer in
            elim got [ err e ↦ (c'', call_failed e) | ok r ↦ (c'', answered r) ]
      ]

  -- `Definition`, up to the decoding of what is answered.
  unfoldable pub definition :
      Client → List Bytes → Launch → Bytes → Bool → ℤ → ℤ → Bool → Answer → Client × QueryResult
  definition c argv l file open_written line col written answer =
      query c argv l file open_written (codes "textDocument/definition")
        (files.position_params (files.path_to_uri (files.abs_file file)) (sub_one line)
          (sub_one col))
        written answer

  -- `References`
  unfoldable pub references :
      Client → List Bytes → Launch → Bytes → Bool → ℤ → ℤ → Bool → Answer → Client × QueryResult
  references c argv l file open_written line col written answer =
      query c argv l file open_written (codes "textDocument/references")
        (files.reference_params (files.path_to_uri (files.abs_file file)) (sub_one line)
          (sub_one col))
        written answer

  -- `Rename`
  unfoldable pub rename :
      Client
      → List Bytes
      → Launch
      → Bytes
      → Bool
      → ℤ
      → ℤ
      → Bytes
      → Bool
      → Answer
      → Client × QueryResult
  rename c argv l file open_written line col new_name written answer =
      query c argv l file open_written (codes "textDocument/rename")
        (files.rename_params (files.path_to_uri (files.abs_file file)) (sub_one line) (sub_one col)
          new_name)
        written answer

-- `Shutdown`, up to the wait for the process; the call's and the notification's results are not read.
unfoldable pub shutdown : Client → Bool → Answer → Bool → Client × NotifyResult
shutdown c written answer exit_written =
    if c.closed
    then (c, notified)
    else let (c', got) =
        call (record c { closed = true }) (codes "shutdown") (some (codes "null")) written answer in
      notify c' (codes "exit") (some (codes "null")) exit_written
