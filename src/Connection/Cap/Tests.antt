-- ===== src/Connection/Cap/Tests.antt =====
-- The accept loop through panics, to where it serves no connection any more.
use ferro_s.Base.{ℕ, zero, suc, ◌+◌, ◌≤◌, ◌<◌, ◌≡◌, refl, ap, leb, false, arith}
use mathlib.Core.Path.{subst}
use ferro_s.Connection.{panicked}
use ferro_s.Connection.Cap.{
  Pool, accepting, admitted, counted, max_connections, idle_server, proceed, finish, fetch_add,
  Steps, here, more, advance, leave,
}
use ferro_s.Connection.Cap.Bounds.{pending, Steps-max_connections, Steps-shut, fetch_add_small}

-- After `n` panics, with all threads gone.
abbrev after_panics : ℕ → Pool
after_panics n = record { phase = accepting; active = n; running = 0; lost = n; shed = 0 }

abbrev admitted_after : ℕ → Pool
admitted_after n = record { phase = admitted; active = n; running = 0; lost = n; shed = 0 }

admits : (n : ℕ) → n < max_connections → proceed accepting (after_panics n) ≡ admitted_after n
unfolding proceed
admits n h = let below : leb max_connections n ≡ false = ground (arith, h) in rw below refl

loses :
    (n : ℕ)
    → n < max_connections
    → finish panicked (proceed counted (proceed admitted (admitted_after n))) ≡ after_panics (suc n)
unfolding proceed finish
loses n h =
    let next : n + 1 ≡ suc n = omega arith in rw (fetch_add_small n h) (ap after_panics next)

panics_on :
    (n : ℕ)
    → n < max_connections
    → Steps idle_server (after_panics n)
    → Steps idle_server (after_panics (suc n))
unfolding proceed
panics_on n h steps =
    let admission : Steps idle_server (admitted_after n) =
      subst (Steps idle_server) (admits n h) (more steps advance) in
    subst (Steps idle_server) (loses n h)
      (more (more (more admission advance) advance) (leave panicked (omega arith)))

panics : (n : ℕ) → n ≤ max_connections → Steps idle_server (after_panics n)
panics zero h = here
panics (suc n) h = panics_on n (omega (arith, h)) (panics n (omega (arith, h)))

-- One thread runs, and another connection is about to get one.
abbrev busy : Pool
busy = record { phase = counted; active = 2; running = 1; lost = 0; shed = 0 }

busy-Steps : Steps idle_server busy
unfolding proceed fetch_add
busy-Steps = more (more (more (more (more here advance) advance) advance) advance) advance

Steps-max_connections_example :
    (busy.running ≤ max_connections)
    × (busy.active ≤ max_connections)
    × (busy.active ≡ busy.running + busy.lost + pending busy.phase)
Steps-max_connections_example = Steps-max_connections busy-Steps

abbrev shut : Pool
shut = record { phase = accepting; active = 512; running = 0; lost = 512; shed = 1 }

sheds : Steps (after_panics max_connections) shut
unfolding proceed
sheds = more here advance

Steps-shut_example :
    (shut.running ≡ 0)
    × (shut.phase ≡ accepting)
    × (proceed shut.phase shut ≡ record shut { shed = shut.shed + 1 })
Steps-shut_example = Steps-shut (panics max_connections (omega arith)) (omega arith) sheds
