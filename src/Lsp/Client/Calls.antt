-- ===== src/Lsp/Client/Calls.antt =====
-- The steps of the calls and of the read loop, in any order (internal/lsp/client.go: call, deliver,
-- failAllInflight).
use code_gen_sandbox.Prelude.Maps
use code_gen_sandbox.Lsp.Client.{
  Client, Reply, failure, new_client, has_id, remove_id, reserve, give_up, enter, abandon, deliver,
  fail_all, fail_all_inflight, Step, reserving, giving_up, entering, abandoning, delivering,
  failing, closing, step, run, reply_of,
}
use code_gen_sandbox.Prelude.{
  leb, ◌==◌, if◌then◌else◌, Bool-cases, ℕ, ◌+◌, ◌≤◌, ◌<◌, ◌≡◌, refl, sym, ◌∙◌, ◌≢◌, inl, inr, true,
  none, some, List, [], ◌∷◌, append-nil, ◌++◌, arith, ℕ_discrete, Bytes,
}

-- How often an id stands in a list.
unfoldable pub count_id : ℕ → List ℕ → ℕ
count_id i [] = 0
count_id i (j ∷ js) = let n = count_id i js in if i == j then n + 1 else n

unfoldable pub count_sends : ℕ → List (ℕ × Reply) → ℕ
count_sends i [] = 0
count_sends i ((j, r) ∷ rs) = let n = count_sends i rs in if i == j then n + 1 else n

count_id-append : (i : ℕ) (xs ys : List ℕ) → count_id i (xs ++ ys) ≡ count_id i xs + count_id i ys
unfolding count_id
count_id-append i [] ys = omega arith
count_id-append i (x ∷ xs) ys = let r = count_id-append i xs ys in ground arith

count_sends-append :
    (i : ℕ) (xs ys : List (ℕ × Reply))
    → count_sends i (xs ++ ys) ≡ count_sends i xs + count_sends i ys
unfolding count_sends
count_sends-append i [] ys = omega arith
count_sends-append i ((j, r) ∷ xs) ys = let r = count_sends-append i xs ys in ground arith

pub count_id-remove_id :
    (i j : ℕ) (xs : List ℕ) → count_id i (remove_id j xs) ≡ (if i == j then 0 else count_id i xs)
unfolding count_id remove_id
count_id-remove_id i j [] = ground arith
count_id-remove_id i j (x ∷ xs) = let r = count_id-remove_id i j xs in ground arith

count_id-has_id : (i : ℕ) (xs : List ℕ) → has_id i xs ≡ true → 0 < count_id i xs
unfolding count_id has_id
count_id-has_id i [] h = absurd (ground arith)
count_id-has_id i (x ∷ xs) h = elim (Bool-cases (i == x)) [
  | inl e ↦ ground arith
  | inr e ↦ let r = count_id-has_id i xs (ground arith) in ground arith
]

count_sends-fail_all :
    (i : ℕ) (ids : List ℕ) (e : Bytes) → count_sends i (fail_all ids e) ≡ count_id i ids
unfolding count_sends count_id fail_all
count_sends-fail_all i [] e = refl
count_sends-fail_all i (j ∷ ids) e = let r = count_sends-fail_all i ids e in ground arith

-- The call with this id stands in one place at most, and in none before its id is given.
abbrev pub OnceAt : ℕ → Client → Type 0
OnceAt i c =
    count_id i c.reserved + count_id i c.inflight + count_sends i c.replies
    ≤ (if leb i c.next_id then 1 else 0)

step-OnceAt : (i : ℕ) (c : Client) (s : Step) → OnceAt i c → OnceAt i (step c s)
unfolding step reserve give_up enter abandon deliver fail_all_inflight count_id count_sends
step-OnceAt i c reserving h =
    let a = count_id-append i c.reserved ((c.next_id + 1) ∷ []) in ground arith
step-OnceAt i c (giving_up id) h = let a = count_id-remove_id i id c.reserved in ground arith
step-OnceAt i c (entering id) h =
    let a = count_id-remove_id i id c.reserved in
    let b = count_id-append i c.inflight (id ∷ []) in
    let p = count_id-has_id id c.reserved in
    elim (Bool-cases (has_id id c.reserved)) [
      | inl e ↦ let q = p e in ground arith
      | inr e ↦ ground arith
    ]
step-OnceAt i c (abandoning id) h = let a = count_id-remove_id i id c.inflight in ground arith
step-OnceAt i c (delivering id resp) h =
    let a = count_id-remove_id i id c.inflight in
    let b = count_sends-append i c.replies ((id, resp) ∷ []) in
    let p = count_id-has_id id c.inflight in
    elim (Bool-cases (has_id id c.inflight)) [
      | inl e ↦ let q = p e in ground arith
      | inr e ↦ ground arith
    ]
step-OnceAt i c (failing e) h =
    let a = count_sends-append i c.replies (fail_all c.inflight e) in
    let b = count_sends-fail_all i c.inflight e in ground arith
step-OnceAt i c closing h = h

run-OnceAt : (i : ℕ) (c : Client) (steps : List Step) → OnceAt i c → OnceAt i (run c steps)
unfolding run
run-OnceAt i c [] h = h
run-OnceAt i c (s ∷ steps) h = run-OnceAt i (step c s) steps (step-OnceAt i c s h)

-- Whatever the order of the steps of the calls and of the read loop, the calls that wait with an id
-- and the replies that its channel is sent are at most one together: the send into the channel's one
-- free place never blocks.
pub run-sends :
    (steps : List Step) (i : ℕ)
    → count_id i (run new_client steps).inflight + count_sends i (run new_client steps).replies ≤ 1
unfolding new_client count_id count_sends
run-sends steps i = let h = run-OnceAt i new_client steps (ground arith) in ground arith

pub lookup-unsent :
    (i : ℕ) (rs more : List (ℕ × Reply))
    → count_sends i rs ≡ 0
    → Maps.lookup ℕ_discrete i (rs ++ more) ≡ Maps.lookup ℕ_discrete i more
unfolding Maps.lookup count_sends
lookup-unsent i [] more h = refl
lookup-unsent i ((j, r) ∷ rs) more h = elim (Bool-cases (i == j)) [
  | inl e ↦ absurd (ground arith)
  | inr e ↦ let a = lookup-unsent i rs more (ground arith) in ground arith
]

lookup-sent :
    (i : ℕ) (rs : List (ℕ × Reply)) (j : ℕ) (r : Reply)
    → j ≢ i
    → Maps.lookup ℕ_discrete i (rs ++ (j, r) ∷ []) ≡ Maps.lookup ℕ_discrete i rs
unfolding Maps.lookup
lookup-sent i [] j r n = ground arith
lookup-sent i ((k, q) ∷ rs) j r n = let a = lookup-sent i rs j r n in ground arith

pub lookup-fail_all :
    (i : ℕ) (ids : List ℕ) (e : Bytes)
    → has_id i ids ≡ true
    → Maps.lookup ℕ_discrete i (fail_all ids e) ≡ some (failure e)
unfolding Maps.lookup fail_all has_id
lookup-fail_all i [] e h = absurd (ground arith)
lookup-fail_all i (j ∷ ids) e h = elim (Bool-cases (i == j)) [
  | inl g ↦ ground arith
  | inr g ↦ let a = lookup-fail_all i ids e (ground arith) in ground arith
]

unsent-inflight :
    (steps : List Step) (i : ℕ)
    → has_id i (run new_client steps).inflight ≡ true
    → count_sends i (run new_client steps).replies ≡ 0
unsent-inflight steps i h =
    let a = run-sends steps i in
    let b = count_id-has_id i (run new_client steps).inflight h in omega arith

-- After any steps, when a call waits and a response with its id is delivered, the call receives this
-- response and waits no more, and another call receives what it has received before.
pub deliver_lem :
    (steps : List Step) (id j : ℕ) (resp : Reply)
    → j ≢ id
    → has_id id (run new_client steps).inflight ≡ true
    → let c = deliver (run new_client steps) id resp in
      (reply_of c id ≡ some resp)
      × (count_id id c.inflight ≡ 0)
      × (reply_of c j ≡ reply_of (run new_client steps) j)
unfolding deliver reply_of Maps.lookup
deliver_lem steps id j resp n h =
    let c = run new_client steps in
    let z = unsent-inflight steps id h in
    let a = lookup-unsent id c.replies ((id, resp) ∷ []) z in
    let b = count_id-remove_id id id c.inflight in
    let d = lookup-sent j c.replies id resp (λ e. n (sym e)) in
    (ground arith, ground arith, ground arith)

-- After any steps, when the read loop ends with an error, every call that waits receives this error,
-- none waits any more and the client is closed.
pub fail_all_inflight_lem :
    (steps : List Step) (id : ℕ) (e : Bytes)
    → has_id id (run new_client steps).inflight ≡ true
    → let c = fail_all_inflight (run new_client steps) e in
      (reply_of c id ≡ some (failure e)) × (c.inflight ≡ []) × (c.closed ≡ true)
unfolding fail_all_inflight reply_of
fail_all_inflight_lem steps id e h =
    let c = run new_client steps in
    let z = unsent-inflight steps id h in
    let a = lookup-unsent id c.replies (fail_all c.inflight e) z in
    let b = lookup-fail_all id c.inflight e h in (a ∙ b, refl, refl)

step-closed : (c : Client) (s : Step) → c.closed ≡ true → (step c s).closed ≡ true
unfolding step reserve give_up enter abandon deliver fail_all_inflight
step-closed c reserving h = ground arith
step-closed c (giving_up id) h = h
step-closed c (entering id) h = ground arith
step-closed c (abandoning id) h = h
step-closed c (delivering id resp) h = ground arith
step-closed c (failing e) h = refl
step-closed c closing h = refl

run-closed : (c : Client) (steps : List Step) → c.closed ≡ true → (run c steps).closed ≡ true
unfolding run
run-closed c [] h = h
run-closed c (s ∷ steps) h = run-closed (step c s) steps (step-closed c s h)

-- Once a client is closed, no later step opens it, and a call gets no id.
pub reserve-closed :
    (c : Client) (steps : List Step) → c.closed ≡ true → reserve (run c steps) ≡ run c steps
unfolding reserve
reserve-closed c steps h = rw (reserve, run-closed c steps h) refl

-- After any steps, a call that has its id when the read loop ends enters the closed client: it waits
-- and has no reply.
pub enter-failed :
    (steps : List Step) (id : ℕ) (e : Bytes)
    → has_id id (run new_client steps).reserved ≡ true
    → let c = enter (fail_all_inflight (run new_client steps) e) id in
      (has_id id c.inflight ≡ true) × (reply_of c id ≡ none) × (c.closed ≡ true)
unfolding enter fail_all_inflight reply_of has_id Maps.lookup new_client count_id count_sends
enter-failed steps id e h =
    let c = run new_client steps in
    let o = run-OnceAt id new_client steps (ground arith) in
    let p = count_id-has_id id c.reserved h in
    let b = count_sends-append id c.replies (fail_all c.inflight e) in
    let f = count_sends-fail_all id c.inflight e in
    let a = lookup-unsent id (c.replies ++ fail_all c.inflight e) [] (ground arith) in
    let n = append-nil (c.replies ++ fail_all c.inflight e) in
    (ground arith, ground arith, ground arith)
