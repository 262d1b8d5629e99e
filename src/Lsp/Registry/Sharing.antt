-- ===== src/Lsp/Registry/Sharing.antt =====
-- How calls share the clients, and which a sweep takes (internal/lsp/registry.go: Get, reapIdle).
use code_gen_sandbox.Prelude.Maps
use code_gen_sandbox.Lsp.Client.{Client, StartError}
use code_gen_sandbox.Lsp.Client.Requests.{Launch, start}
use code_gen_sandbox.Lsp.Registry.{
  second, Registry, client_key, client, or_new, get, sweep_interval, is_idle, busy_clients,
  reap_idle,
}
use code_gen_sandbox.Testing.Rerun.Targets.{split_at_byte-append}
use code_gen_sandbox.Prelude.{
  ltb, ◌==◌, Bool-cases, Option-cases, All, ℕ, ◌+◌, ◌*◌, ◌≤◌, ◌<◌, ◌≡◌, sym, ◌≢◌, ◌⊎◌, inl, inr,
  Bool, false, Option, none, some, List, [], ◌∷◌, arith, Bytes, bytes_discrete, Lacks,
}

-- The zero byte parts the two halves of a key.
client_key-injective :
    (w l w' l' : Bytes)
    → Lacks 0 w
    → Lacks 0 w'
    → client_key w l ≡ client_key w' l'
    → (w ≡ w') × (l ≡ l')
unfolding client_key
client_key-injective w l w' l' h h' e =
    let a = split_at_byte-append 0 w l h in let b = split_at_byte-append 0 w' l' h' in (cc, cc)

other_key :
    (w l w' l' : Bytes)
    → Lacks 0 w
    → Lacks 0 w'
    → (w ≢ w') ⊎ (l ≢ l')
    → client_key w l ≢ client_key w' l'
other_key w l w' l' h h' n e =
    let p = client_key-injective w l w' l' h h' e in elim n [ inl f ↦ f p.0 | inr f ↦ f p.1 ]

start-started :
    (c : Client) (argv : List Bytes) (l : Launch) (e : Option StartError)
    → c.started ≡ some e
    → start c argv l ≡ (c, e)
unfolding start
start-started c argv l e h = ground arith

started-start :
    (c : Client) (argv : List Bytes) (l : Launch)
    → (start c argv l).0.started ≡ some (start c argv l).1
unfolding start
started-start c argv l = ground arith

-- The result of the first start is kept.
start-again :
    (c : Client) (argv again : List Bytes) (l l' : Launch)
    → start (start c argv l).0 again l' ≡ start c argv l
start-again c argv again l l' =
    start-started (start c argv l).0 again l' (start c argv l).1 (started-start c argv l)

insert-insert :
    (key : Bytes) (c : Client) (m : List (Bytes × Client))
    → Maps.insert bytes_discrete key c (Maps.insert bytes_discrete key c m)
      ≡ Maps.insert bytes_discrete key c m
unfolding Maps.insert
insert-insert key c [] = ground arith
insert-insert key c ((k, d) ∷ m) = let ih = insert-insert key c m in ground arith

module _ (resolve : Bytes → List Bytes) where
  -- For workspaces without a zero byte, to get the client of one workspace and language leaves the
  -- client of another workspace or another language as it is.
  pub get-other :
      (r : Registry) (w l w' l' : Bytes) (launch : Launch)
      → Lacks 0 w
      → Lacks 0 w'
      → (w ≢ w') ⊎ (l ≢ l')
      → Maps.lookup bytes_discrete (client_key w' l') (get resolve r w l launch).0.clients
        ≡ Maps.lookup bytes_discrete (client_key w' l') r.clients
  unfolding get
  get-other r w l w' l' launch h h' n =
      let key = client_key w l in
      let other = client_key w' l' in
      let d : key ≢ other = λ e. other_key w l w' l' h h' n e in
      let c = (start (or_new (Maps.lookup bytes_discrete key r.clients)) (resolve l) launch).0 in
      let a = Maps.lookup-insert bytes_discrete key other c r.clients in
      let b = Maps.lookup-remove bytes_discrete key other r.clients in ground arith

  -- When a client is got, a later call for the same workspace and language, however a server would
  -- start then, gives this client and changes nothing; and the first call leaves what stands under
  -- every other key as it is.
  pub get-again :
      (r : Registry) (w l : Bytes) (launch again : Launch) (c : Client)
      → (get resolve r w l launch).1 ≡ client c
      → (get resolve (get resolve r w l launch).0 w l again
          ≡ ((get resolve r w l launch).0, client c))
        × ((key : Bytes)
            → (key ≡ client_key w l)
              ⊎ (Maps.lookup bytes_discrete key (get resolve r w l launch).0.clients
                  ≡ Maps.lookup bytes_discrete key r.clients))
  unfolding get or_new
  get-again r w l launch again c h =
      let key = client_key w l in
      let s = start (or_new (Maps.lookup bytes_discrete key r.clients)) (resolve l) launch in
      let a = Maps.lookup-insert_self bytes_discrete key s.0 r.clients in
      let i = insert-insert key s.0 r.clients in
      let b =
        start-again (or_new (Maps.lookup bytes_discrete key r.clients)) (resolve l) (resolve l)
          launch again in
      (
        ground arith,
        λ other. elim (bytes_discrete other key) [
          | yes e ↦ inl e
          | no n ↦
              let m = Maps.lookup-insert bytes_discrete key other s.0 r.clients in
              let d : key ≢ other = λ e. n (sym e) in inr (ground arith)
        ],
      )

busy_clients-kept :
    (now timeout : ℕ) (m : List (Bytes × Client)) (key : Bytes) (c : Client)
    → Maps.lookup bytes_discrete key m ≡ some c
    → is_idle now timeout c ≡ false
    → Maps.lookup bytes_discrete key (busy_clients now timeout m) ≡ some c
unfolding busy_clients Maps.lookup
busy_clients-kept now timeout [] key c h i = absurd (ground arith)
busy_clients-kept now timeout ((k, d) ∷ m) key c h i = elim (bytes_discrete k key) [
  | yes e ↦ ground arith
  | no n ↦ let r = busy_clients-kept now timeout m key c (ground arith) i in ground arith
]

busy_clients-busy :
    (now timeout : ℕ) (m : List (Bytes × Client))
    → All (λ e. is_idle now timeout e.1 ≡ false) (busy_clients now timeout m)
unfolding busy_clients
busy_clients-busy now timeout [] = tt
busy_clients-busy now timeout ((k, d) ∷ m) =
    let r = busy_clients-busy now timeout m in
    elim (Bool-cases (is_idle now timeout d)) [ inl e ↦ rw e r | inr e ↦ rw e (e, r) ]

not_idle :
    (now timeout : ℕ) (m : List (Bytes × Client))
    → All (λ e. is_idle now timeout e.1 ≡ false) m
    → All (λ e. (e.1.last_used ≡ 0) ⊎ (now ≤ e.1.last_used + timeout)) m
unfolding is_idle
not_idle now timeout [] h = tt
not_idle now timeout ((k, c) ∷ m) h =
    let i = h.0 in
    (
      elim (Bool-cases (c.last_used == 0)) [
        | inl e ↦ inl (ground arith)
        | inr e ↦ inr (ground arith)
      ],
      not_idle now timeout m h.1,
    )

-- A client that has completed no request, or one since the timeout.
abbrev pub IsBusy : ℕ → ℕ → Client → Type 0
IsBusy now timeout c = (c.last_used ≡ 0) ⊎ (now ≤ c.last_used + timeout)

idle_or_busy :
    (now timeout : ℕ) (c : Client)
    → ((c.last_used ≢ 0) × (c.last_used + timeout < now)) ⊎ (is_idle now timeout c ≡ false)
unfolding is_idle
idle_or_busy now timeout c = elim (Bool-cases (is_idle now timeout c)) [
  | inl e ↦ inl ((λ z. ground arith), ground arith)
  | inr e ↦ inr e
]

-- A sweep leaves only clients that are not idle, in whatever state the registry is: each has completed
-- no request, or one since the timeout. Under each key there is no client before, or an idle one that
-- has completed a request and none since the timeout, or a client that stays under the key.
pub reap_idle_lem :
    (exit_written : Client → Bool) (r : Registry) (now : ℕ) (key : Bytes)
    → All (λ e. IsBusy now r.idle_timeout e.1) (reap_idle exit_written r now).clients
      × ((Maps.lookup bytes_discrete key r.clients ≡ none)
          ⊎ ((c : Client) × (Maps.lookup bytes_discrete key r.clients ≡ some c)
              × (((c.last_used ≢ 0) × (c.last_used + r.idle_timeout < now))
                  ⊎ (Maps.lookup bytes_discrete key (reap_idle exit_written r now).clients
                      ≡ some c))))
unfolding reap_idle
reap_idle_lem exit_written r now key = (
  not_idle now r.idle_timeout (busy_clients now r.idle_timeout r.clients)
      (busy_clients-busy now r.idle_timeout r.clients),
  elim (Option-cases (Maps.lookup bytes_discrete key r.clients)) [
    | inl e ↦ inl e
    | inr (c, e) ↦ inr (
      c,
      e,
      elim (idle_or_busy now r.idle_timeout c) [
        | inl i ↦ inl i
        | inr b ↦ inr (busy_clients-kept now r.idle_timeout r.clients key c e b)
      ],
    )
  ],
)

-- The sweeper's interval is between a second and a minute, and is not longer than half of the
-- timeout where that is at least two seconds.
pub sweep_interval_bounds :
    (timeout : ℕ)
    → (second ≤ sweep_interval timeout)
      × (sweep_interval timeout ≤ 60 * second)
      × ((timeout < 2 * second) ⊎ (2 * sweep_interval timeout ≤ timeout))
unfolding sweep_interval
sweep_interval_bounds timeout = (
  ground arith,
  ground arith,
  elim (Bool-cases (ltb timeout (2 * second))) [
    | inl e ↦ inl (ground arith)
    | inr e ↦ inr (ground arith)
  ],
)
