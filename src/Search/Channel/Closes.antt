-- ===== src/Search/Channel/Closes.antt =====
-- The result channel is closed, after all has been received.
use mathlib.Core.List.{Perm, perm_middle}
use mathlib.Core.List.Perm
use mathlib.Core.Path.{subst}
use kswitch.Prelude.{
  ℕ, zero, suc, ◌+◌, ◌-◌, Text, ◌≡◌, refl, sym, ap, ◌∙◌, true, false, Bool-cases, inl, inr,
  if◌then◌else◌, length, length-append, append-nil, Option, List, [], ◌∷◌, ◌++◌, append_assoc,
  arith,
}
use kswitch.Prelude.Dict.{Dict}
use kswitch.Prelude.Go.{ok, bind_ok, ok_injective}
use kswitch.Search.{Store, KubeConfig}
use kswitch.Search.Worker.{Message, is_optional}
use kswitch.Search.Channel.{
  Running, Request, start_store, start_stores, aliases, do_search, Step, send, send_closed, done,
  done_below, close, Inevitably, now, later, pending,
}

-- The counter is that of the goroutines which have not called Done, and is nought once closed. None of
-- them has panicked.
abbrev pub IsCounted : Running → Type 0
IsCounted s =
    (s.counter ≡ length s.workers) × ((s.closed ≡ true) → (s.counter ≡ 0)) × (s.panicked ≡ false)

Step-IsCounted : {s t : Running} → Step s t → IsCounted s → IsCounted t
Step-IsCounted {s} (send before m rest after e o) (c, z, q) =
    (c ∙ ap length e ∙ length-append before _ ∙ sym (length-append before _), z, q)
Step-IsCounted {s} (send_closed before m rest after e shut) (c, z, q) =
    let n = ap length e ∙ length-append before _ in absurd (omega (arith, c, n, z shut))
Step-IsCounted {s} (done before after k e counted) (c, z, q) =
    let n = ap length e ∙ length-append before _ in
    (omega (arith, c, n, counted, length-append before after), λ h. omega (arith, counted, z h), q)
Step-IsCounted {s} (done_below before after e nought) (c, z, q) =
    let n = ap length e ∙ length-append before _ in absurd (omega (arith, c, n, nought))
Step-IsCounted {s} (close n o) (c, z, q) = (c, λ h. n, q)

pending-append : (xs ys : List (List Message)) → pending (xs ++ ys) ≡ pending xs ++ pending ys
pending-append [] ys = refl
pending-append (x ∷ xs) ys =
    rw (pending-append xs ys) (sym (append_assoc x (pending xs) (pending ys)))

-- Nothing is lost and nothing is sent twice.
abbrev sent : Running → List Message
sent s = s.received ++ pending s.workers

Step-sent : {s t : Running} → Step s t → Perm (sent t) (sent s)
Step-sent {s} (send before m rest after e o) =
    rw
      (
        pending-append before (rest ∷ after),
        append_assoc s.received (m ∷ []) (pending before ++ (rest ++ pending after)),
      )
      (rw (ap pending e ∙ pending-append before ((m ∷ rest) ∷ after)) (
        Perm.append_left s.received
          (Perm.symm (perm_middle (pending before) (rest ++ pending after)))))
Step-sent {s} (send_closed before m rest after e shut) = Perm.refl (sent s)
Step-sent {s} (done_below before after e nought) = Perm.refl (sent s)
Step-sent {s} (done before after n e counted) =
    rw (pending-append before after)
      (rw (ap pending e ∙ pending-append before ([] ∷ after)) (Perm.refl _))
Step-sent {s} (close n o) = Perm.refl (sent s)

-- The steps that are left.
abbrev pub steps_left : Running → ℕ
steps_left s = length (pending s.workers) + length s.workers + (if s.closed then 0 else 1)

Step-steps_left : {s t : Running} → Step s t → IsCounted s → suc (steps_left t) ≡ steps_left s
Step-steps_left {s} (send_closed before m rest after e shut) (c, z, q) =
    let n = ap length e ∙ length-append before _ in absurd (omega (arith, c, n, z shut))
Step-steps_left {s} (done_below before after e nought) (c, z, q) =
    let n = ap length e ∙ length-append before _ in absurd (omega (arith, c, n, nought))
Step-steps_left {s} (send before m rest after e o) counted =
    let p = ap length (pending-append before (rest ∷ after)) ∙ length-append (pending before) _ in
    let q =
      ap (λ w. length (pending w)) e
      ∙ ap length (pending-append before ((m ∷ rest) ∷ after))
      ∙ length-append (pending before) _ in
    let n = ap length e ∙ length-append before _ in
    omega (arith, p, q, n, length-append before (rest ∷ after))
Step-steps_left {s} (done before after k e d) counted =
    let p = ap length (pending-append before after) ∙ length-append (pending before) _ in
    let q =
      ap (λ w. length (pending w)) e
      ∙ ap length (pending-append before ([] ∷ after))
      ∙ length-append (pending before) _ in
    let n = ap length e ∙ length-append before _ in
    omega (arith, p, q, n, length-append before after)
Step-steps_left {s} (close n o) counted = rw o (omega arith)

can_step_from :
    (s : Running) (workers : List (List Message))
    → s.workers ≡ workers
    → IsCounted s
    → s.closed ≡ false
    → (t : Running) × Step s t
can_step_from s [] e (c, z, q) o = (_, close (omega (arith, c, ap length e)) o)
can_step_from s ([] ∷ workers) e (c, z, q) o =
    (_, done [] workers (length workers) e (omega (arith, c, ap length e)))
can_step_from s ((m ∷ rest) ∷ workers) e c o = (_, send [] m rest workers e o)

-- Closed, without a panic and with no goroutine left, and with these messages received, in some order.
abbrev pub IsFinished : List Message → Running → Type 0
IsFinished messages s =
    (s.closed ≡ true) × (s.panicked ≡ false) × (s.workers ≡ []) × Perm s.received messages

no_workers : (workers : List (List Message)) → length workers ≡ 0 → workers ≡ []
no_workers [] h = refl
no_workers (w ∷ workers) h = absurd (omega (arith, h))

shut_lem :
    (s : Running) (messages : List Message)
    → s.closed ≡ true
    → IsCounted s
    → Perm (sent s) messages
    → Inevitably (IsFinished messages) s
shut_lem s messages shut (c, z, q) p =
    let idle = no_workers s.workers (omega (arith, c, z shut)) in
    now (
      shut,
      q,
      idle,
      subst (λ l. Perm l messages) (ap (λ w. s.received ++ pending w) idle ∙ append-nil s.received)
          p,
    )

finishes :
    (n : ℕ) (s : Running) (messages : List Message)
    → steps_left s ≡ n
    → IsCounted s
    → Perm (sent s) messages
    → Inevitably (IsFinished messages) s
finishes zero s messages e (c, z, q) p = elim (Bool-cases s.closed) [
  | inl shut ↦ shut_lem s messages shut (c, z, q) p
  | inr unfinished ↦ absurd (omega (arith, simp unfinished at e))
]
finishes (suc n) s messages e (c, z, q) p = elim (Bool-cases s.closed) [
  | inl shut ↦ shut_lem s messages shut (c, z, q) p
  | inr unfinished ↦
      let (t, step) = can_step_from s s.workers refl (c, z, q) unfinished in
      later step (λ u st.
        finishes n u messages (omega (arith, Step-steps_left st (c, z, q), e))
          (Step-IsCounted st (c, z, q)) (Perm.trans (Step-sent st) p))
]

module _ (parse : Text → Option KubeConfig) (unmarshal : Text → Option (Option (Dict Text))) where
  start_stores-counter :
      (request : Request) (mapping : Dict Text) (base : ℕ) (stores : List Store) (counter : ℕ)
      (started : ℕ × List (List Message))
      → counter ≡ base + length stores
      → start_stores parse unmarshal request mapping counter stores ≡ ok started
      → started.0 ≡ base + length started.1
  unfolding start_stores
  start_stores-counter request mapping base [] counter started c h =
      let e = ok_injective _ _ h in
      omega (
        arith,
        c,
        ap (λ (r : ℕ × List (List Message)). r.0) e,
        ap (λ (r : ℕ × List (List Message)). length r.1) e,
      )
  start_stores-counter request mapping base (store ∷ stores) counter started c h =
      elim (Bool-cases store.verifies) [
        | inl verified ↦
            let (m, _, h') =
              bind_ok (start_store parse unmarshal request mapping store) _ started
                (simp verified at h) in
            let (others, o, h'') =
              bind_ok (start_stores parse unmarshal request mapping counter stores) _ started h' in
            let e = ok_injective _ _ h'' in
            let ih =
              start_stores-counter request mapping (suc base) stores counter others
                (omega (arith, c)) o in
            omega (
              arith,
              ih,
              ap (λ (r : ℕ × List (List Message)). r.0) e,
              ap (λ (r : ℕ × List (List Message)). length r.1) e,
            )
        | inr unverified ↦ elim (Bool-cases (is_optional store.required)) [
          | inl optional ↦
              start_stores-counter request mapping base stores (counter - 1) started
                (omega (arith, c)) (simp (unverified, optional) at h)
          | inr required ↦ absurd (ground (arith, h, unverified, required))
        ]
      ]

-- For every list of stores and every request: if doSearch returns, then however its goroutines are
-- scheduled, as long as the receiver takes what is sent, after finitely many steps the result channel is
-- closed, no goroutine is left, none has panicked (by a send to the closed channel, or a Done too many),
-- and exactly the messages of all the goroutines were received, in some order.
pub do_search-IsFinished :
    (parse : Text → Option KubeConfig) (unmarshal : Text → Option (Option (Dict Text)))
    (request : Request) (stores : List Store) (run : Running)
    → do_search parse unmarshal request stores ≡ ok run
    → Inevitably (IsFinished (pending run.workers)) run
unfolding do_search
do_search-IsFinished parse unmarshal request stores run h =
    let (mapping, _, h') = bind_ok (aliases parse unmarshal request) _ run h in
    let (started, e, h'') =
      bind_ok (start_stores parse unmarshal request mapping (length stores) stores) _ run h' in
    let c =
      start_stores-counter parse unmarshal request mapping 0 stores (length stores) started
        (omega arith) e in
    let first : Running = record {
      counter = started.0;
      workers = started.1;
      received = [];
      closed = false;
      panicked = false;
    } in
    subst (λ r. Inevitably (IsFinished (pending r.workers)) r) (ok_injective _ _ h'')
      (finishes (steps_left first) first (pending started.1) refl
        (omega (arith, c), λ shut. absurd (cc), refl) (Perm.refl (pending started.1)))
