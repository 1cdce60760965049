-- ===== src/Connection/Cap/Bounds.antt =====
-- The cap on connection threads of src/main.rs: what holds however the threads interleave.
use ferro_s.Base.{ℕ, ◌+◌, ◌-◌, ◌≤◌, ◌<◌, ◌≡◌, refl, ap, ◌∙◌, leb, Bool-cases, inl, inr, true, arith}
use ferro_s.Connection.{Ending, closed, io_error, panicked}
use ferro_s.Connection.Cap.{
  Phase, accepting, admitted, counted, Pool, max_connections, idle_server, fetch_add, fetch_sub,
  proceed, finish, Step, advance, refuse, leave, Steps, here, more,
}

-- The connection that is counted and has no thread yet.
unfoldable pub pending : Phase → ℕ
pending accepting = 0
pending admitted = 0
pending counted = 1

-- The room that the main thread found by its test.
unfoldable pub room : Phase → ℕ
room accepting = 0
room admitted = 1
room counted = 0

pub record IsBounded (p : Pool) : Type 0 where
  pub counts : p.active ≡ p.running + p.lost + pending p.phase
  pub within : p.active + room p.phase ≤ max_connections

pub fetch_add_small : (n : ℕ) → n < max_connections → fetch_add n ≡ n + 1
unfolding fetch_add
fetch_add_small n h = omega (arith, h)

fetch_sub_small : (n : ℕ) → 0 < n → n ≤ max_connections → fetch_sub n ≡ n - 1
unfolding fetch_sub
fetch_sub_small n pos h = omega (arith, pos, h)

proceed-IsBounded :
    (p : Pool) (phase : Phase) → p.phase ≡ phase → IsBounded p → IsBounded (proceed phase p)
unfolding proceed pending room
proceed-IsBounded p accepting e h =
    let w : p.active + room p.phase ≤ max_connections = h.within in
    let c : p.active ≡ p.running + p.lost + pending p.phase = h.counts in
    let same : pending p.phase ≡ 0 = ap pending e in
    let none_yet : room p.phase ≡ 0 = ap room e in
    elim (Bool-cases (leb max_connections p.active)) [
      | inl y ↦ rw y (record { counts = c; within = w })
      | inr n ↦
          rw n (record { counts = omega (arith, c, same); within = ground (arith, n, w, none_yet) })
    ]
proceed-IsBounded p admitted e h =
    let w : p.active + room p.phase ≤ max_connections = h.within in
    let c : p.active ≡ p.running + p.lost + pending p.phase = h.counts in
    let same : pending p.phase ≡ 0 = ap pending e in
    let one : room p.phase ≡ 1 = ap room e in
    let added = fetch_add_small p.active (omega (arith, w, one)) in
    record { counts = omega (arith, added, c, same); within = omega (arith, added, w, one) }
proceed-IsBounded p counted e h =
    let w : p.active + room p.phase ≤ max_connections = h.within in
    let c : p.active ≡ p.running + p.lost + pending p.phase = h.counts in
    let one : pending p.phase ≡ 1 = ap pending e in
    record { counts = omega (arith, c, one); within = omega (arith, w) }

released :
    (p : Pool)
    → 0 < p.running
    → IsBounded p
    → IsBounded (record p { active = fetch_sub p.active; running = p.running - 1 })
released p pos h =
    let w : p.active + room p.phase ≤ max_connections = h.within in
    let c : p.active ≡ p.running + p.lost + pending p.phase = h.counts in
    let less = fetch_sub_small p.active (omega (arith, c, pos)) (omega (arith, w)) in
    record { counts = omega (arith, less, c, pos); within = omega (arith, less, w) }

finish-IsBounded : (p : Pool) (e : Ending) → 0 < p.running → IsBounded p → IsBounded (finish e p)
unfolding finish
finish-IsBounded p closed pos h = released p pos h
finish-IsBounded p io_error pos h = released p pos h
finish-IsBounded p panicked pos h = record {
  counts = omega (arith, h.counts, pos);
  within = h.within;
}

Step-IsBounded : {p q : Pool} → Step p q → IsBounded p → IsBounded q
Step-IsBounded {p} advance h = proceed-IsBounded p p.phase refl h
Step-IsBounded refuse h = h
Step-IsBounded {p} (leave e pos) h = finish-IsBounded p e pos h

Steps-IsBounded : {p q : Pool} → Steps p q → IsBounded p → IsBounded q
Steps-IsBounded here h = h
Steps-IsBounded (more steps step) h = Step-IsBounded step (Steps-IsBounded steps h)

idle_server-IsBounded : IsBounded idle_server
unfolding pending room
idle_server-IsBounded = record { counts = refl; within = omega arith }

-- However the accept loop and the connection threads interleave, at most 512 threads run at once,
-- and the counter, which does not wrap around, is the number of those that run, of those that a
-- panic ended, and of the connection that is counted and has no thread yet.
pub Steps-max_connections :
    {p : Pool}
    → Steps idle_server p
    → (p.running ≤ max_connections)
      × (p.active ≤ max_connections)
      × (p.active ≡ p.running + p.lost + pending p.phase)
Steps-max_connections {p} steps =
    let h = Steps-IsBounded steps idle_server-IsBounded in
    (omega (arith, h.counts, h.within), omega (arith, h.within), h.counts)

finish-lost : (p : Pool) (e : Ending) → p.lost ≤ (finish e p).lost
unfolding finish
finish-lost p closed = omega arith
finish-lost p io_error = omega arith
finish-lost p panicked = omega arith

proceed-lost : (p : Pool) (phase : Phase) → p.lost ≤ (proceed phase p).lost
unfolding proceed
proceed-lost p accepting = elim (Bool-cases (leb max_connections p.active)) [
  | inl y ↦ rw y (omega arith)
  | inr n ↦ rw n (omega arith)
]
proceed-lost p admitted = omega arith
proceed-lost p counted = omega arith

Steps-lost : {p q : Pool} → Steps p q → p.lost ≤ q.lost
Steps-lost here = omega arith
Steps-lost (more steps advance) = omega (arith, Steps-lost steps, proceed-lost _ _)
Steps-lost (more steps refuse) = Steps-lost steps
Steps-lost (more steps (leave e pos)) = omega (arith, Steps-lost steps, finish-lost _ e)

pub joined : {p q r : Pool} → Steps p q → Steps q r → Steps p r
joined one here = one
joined one (more two step) = more (joined one two) step

only_accepting : (phase : Phase) → pending phase ≡ 0 → room phase ≡ 0 → phase ≡ accepting
unfolding pending room
only_accepting accepting h k = refl
only_accepting admitted h k = ground (arith, k)
only_accepting counted h k = ground (arith, h)

proceed_full :
    (q : Pool) → max_connections ≤ q.active → proceed accepting q ≡ record q { shed = q.shed + 1 }
unfolding proceed
proceed_full q h =
    let full : leb max_connections q.active ≡ true = ground (arith, h) in rw full refl

-- Once 512 connections ended by a panic, no connection is served again: in every state that
-- is reached from there, no thread runs and none is about to, and the next connection is dropped.
pub Steps-shut :
    {p q : Pool}
    → Steps idle_server p
    → max_connections ≤ p.lost
    → Steps p q
    → (q.running ≡ 0) × (q.phase ≡ accepting) × (proceed q.phase q ≡ record q { shed = q.shed + 1 })
Steps-shut {p} {q} before lost after =
    let h = Steps-IsBounded (joined before after) idle_server-IsBounded in
    let more_lost = Steps-lost after in
    let at : q.phase ≡ accepting =
      only_accepting q.phase (omega (arith, h.counts, h.within, lost, more_lost))
        (omega (arith, h.counts, h.within, lost, more_lost)) in
    (
      omega (arith, h.counts, h.within, lost, more_lost),
      at,
      ap (λ phase. proceed phase q) at ∙ proceed_full q (omega (arith, h.counts, lost, more_lost)),
    )
