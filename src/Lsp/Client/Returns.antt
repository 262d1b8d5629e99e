-- ===== src/Lsp/Client/Returns.antt =====
-- What a caller gets, and what reaches the server (internal/lsp/client.go: call, ensureOpen,
-- Shutdown).
use code_gen_sandbox.Prelude.Maps
use code_gen_sandbox.Lsp.Client.{
  Client, result, failure, request, notification, server_error, context_done, reserve, enter,
  abandon, deliver, fail_all, fail_all_inflight, reply_of, has_id, remove_id,
}
use code_gen_sandbox.Lsp.Client.Calls.{
  count_id, count_sends, OnceAt, lookup-unsent, lookup-fail_all, count_id-remove_id,
}
use code_gen_sandbox.Lsp.Client.Requests.{
  Answer, replied, ended, cancelled, CallResult, ok, err, receive, await, call, notified, crashed,
  notify, Files, ensure_open, shutdown,
}
use code_gen_sandbox.Prelude.{
  if◌then◌else◌, ℕ, ◌+◌, ◌≡◌, refl, Bool, true, false, some, List, [], ◌∷◌, ◌++◌, arith, Bytes,
  codes, bytes_discrete, has_text,
}

-- The result that an answer stands for.
abbrev pub outcome : Answer → CallResult
outcome (replied (result r) now) = ok r
outcome (replied (failure e) now) = err (server_error e)
outcome (ended e) = err (server_error e)
outcome cancelled = err context_done

has_id-append : (i : ℕ) (ids : List ℕ) → has_id i (ids ++ i ∷ []) ≡ true
unfolding has_id
has_id-append i [] = ground arith
has_id-append i (j ∷ ids) = let r = has_id-append i ids in ground arith

await_lem :
    (w : Client) (id : ℕ) (answer : Answer)
    → has_id id w.inflight ≡ true
    → count_sends id w.replies ≡ 0
    → ((await w id answer).1 ≡ outcome answer) × (count_id id (await w id answer).0.inflight ≡ 0)
unfolding await receive reply_of deliver fail_all_inflight abandon count_id Maps.lookup
await_lem w id (replied (result r) now) h z =
    let a = lookup-unsent id w.replies ((id, result r) ∷ []) z in
    let b = count_id-remove_id id id w.inflight in (ground arith, ground arith)
await_lem w id (replied (failure e) now) h z =
    let a = lookup-unsent id w.replies ((id, failure e) ∷ []) z in
    let b = count_id-remove_id id id w.inflight in (ground arith, ground arith)
await_lem w id (ended e) h z =
    let a = lookup-unsent id w.replies (fail_all w.inflight e) z in
    let b = lookup-fail_all id w.inflight e h in (ground arith, ground arith)
await_lem w id cancelled h z = let b = count_id-remove_id id id w.inflight in (refl, ground arith)

call-entered :
    (c : Client) (method p : Bytes) (answer : Answer)
    → c.closed ≡ false
    → call c method (some p) true answer
      ≡ await
          (record c {
            next_id = c.next_id + 1;
            reserved = remove_id (c.next_id + 1) (c.reserved ++ (c.next_id + 1) ∷ []);
            inflight = c.inflight ++ (c.next_id + 1) ∷ [];
            sent = c.sent ++ request (c.next_id + 1) method p ∷ [];
          })
          (c.next_id + 1)
          answer
unfolding call reserve enter
call-entered c method p answer h =
    let a = has_id-append (c.next_id + 1) c.reserved in rw (call, h, reserve, enter, a) refl

-- A call that is written, of an open client, returns what its answer stands for and leaves no entry
-- for its id behind, where its id stands in one place at most.
pub call_lem :
    (c : Client) (method p : Bytes) (answer : Answer)
    → c.closed ≡ false
    → OnceAt (c.next_id + 1) c
    → ((call c method (some p) true answer).1 ≡ outcome answer)
      × (count_id (c.next_id + 1) (call c method (some p) true answer).0.inflight ≡ 0)
unfolding call
call_lem c method p answer h o =
    let id = c.next_id + 1 in
    let w : Client = record c {
      next_id = id;
      reserved = remove_id id (c.reserved ++ id ∷ []);
      inflight = c.inflight ++ id ∷ [];
      sent = c.sent ++ request id method p ∷ [];
    } in
    let e : call c method (some p) true answer ≡ await w id answer =
      call-entered c method p answer h in
    rw (e, call) (await_lem w id answer (has_id-append id c.inflight) (ground arith))

-- An open client that has a pipe to its server is shut down with the notification "exit" alone: no
-- request "shutdown" is sent, whatever would be answered, where the notification is written. Without
-- a pipe, the shutdown writes to a nil interface.
pub shutdown_lem :
    (c : Client) (written : Bool) (answer : Answer)
    → c.closed ≡ false
    → ((shutdown c written answer true).0.sent ≡ (
        if c.has_stdin then c.sent ++ notification (codes "exit") (codes "null") ∷ [] else c.sent))
      × ((shutdown c written answer true).1 ≡ (if c.has_stdin then notified else crashed))
unfolding shutdown call notify
shutdown_lem c written answer h = (ground arith, ground arith)

has_text-append :
    (s : Bytes) (ts more : List Bytes) → has_text s ts ≡ true → has_text s (ts ++ more) ≡ true
unfolding has_text
has_text-append s [] more h = absurd (ground arith)
has_text-append s (t ∷ ts) more h = elim (bytes_discrete s t) [
  | yes e ↦ ground arith
  | no n ↦ let r = has_text-append s ts more (ground arith) in ground arith
]

has_text_self : (s : Bytes) (ts : List Bytes) → has_text s (ts ++ s ∷ []) ≡ true
unfolding has_text
has_text_self s [] = ground arith
has_text_self s (t ∷ ts) = let r = has_text_self s ts in ground arith

module _ (files : Files) where
  -- Several files are opened in turn.
  pub open_all : Client → List Bytes → Client
  open_all c [] = c
  open_all c (f ∷ fs) = open_all (ensure_open files c f true) fs

  opened-ensure_open :
      (c : Client) (file abs : Bytes) (written : Bool)
      → has_text abs c.opened ≡ true
      → has_text abs (ensure_open files c file written).opened ≡ true
  unfolding ensure_open notify
  opened-ensure_open c file abs written h =
      let a = has_text-append abs c.opened (files.abs_file file ∷ []) h in ground arith

  ensure_open-opened :
      (c : Client) (file : Bytes) (written : Bool)
      → has_text (files.abs_file file) (ensure_open files c file written).opened ≡ true
  unfolding ensure_open notify
  ensure_open-opened c file written =
      let a = has_text_self (files.abs_file file) c.opened in ground arith

  open_all-opened :
      (c : Client) (fs : List Bytes) (abs : Bytes)
      → has_text abs c.opened ≡ true
      → has_text abs (open_all c fs).opened ≡ true
  unfolding open_all
  open_all-opened c [] abs h = h
  open_all-opened c (f ∷ fs) abs h =
      open_all-opened (ensure_open files c f true) fs abs (opened-ensure_open c f abs true h)

  -- Once a file has been opened, whatever files are opened after it, to open it again, under any name
  -- that stands for the same path, changes nothing and sends nothing.
  pub ensure_open-again :
      (c : Client) (file again : Bytes) (fs : List Bytes) (first written : Bool)
      → files.abs_file again ≡ files.abs_file file
      → ensure_open files (open_all (ensure_open files c file first) fs) again written
        ≡ open_all (ensure_open files c file first) fs
  unfolding ensure_open
  ensure_open-again c file again fs first written e =
      let c' = ensure_open files c file first in
      let h = open_all-opened c' fs (files.abs_file file) (ensure_open-opened c file first) in
      rw (ensure_open, e, h) refl
