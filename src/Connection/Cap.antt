-- ===== src/Connection/Cap.antt =====
-- The accept loop of src/main.rs (FreeBSD) and its cap on connection threads: the main thread, which
-- accepts, tests the counter, adds to it and spawns in steps of their own, among the threads, which
-- end when they like.
pub mod Bounds
mod Tests
use ferro_s.Base.{ℕ, ◌+◌, ◌-◌, ◌%◌, ◌^◌, ◌<◌, leb, if◌then◌else◌}
use ferro_s.Connection.{Ending, closed, io_error, panicked}

abbrev pub max_connections : ℕ
max_connections = 512

-- Where the main thread stands: before `accept`, past the test of the cap, past `fetch_add`.
pub data Phase : Type 0 where
  accepting admitted counted : Phase

-- The counter `ACTIVE_CONNECTIONS`, the threads that run, the threads that ended by a panic, and the
-- connections that were dropped.
pub record Pool : Type 0 where
  pub phase : Phase
  pub active : ℕ
  pub running : ℕ
  pub lost : ℕ
  pub shed : ℕ

abbrev pub idle_server : Pool
idle_server = record { phase = accepting; active = 0; running = 0; lost = 0; shed = 0 }

-- `fetch_add` and `fetch_sub` on a `usize`.
unfoldable pub fetch_add : ℕ → ℕ
fetch_add n = (n + 1) % 2 ^ 64

unfoldable pub fetch_sub : ℕ → ℕ
fetch_sub n = (n + (2 ^ 64 - 1)) % 2 ^ 64

-- What the main thread does next, where `accept` gives it a connection.
unfoldable pub proceed : Phase → Pool → Pool
proceed accepting p =
    if leb max_connections p.active
    then record p { shed = p.shed + 1 }
    else record p { phase = admitted }
proceed admitted p = record p { phase = counted; active = fetch_add p.active }
proceed counted p = record p { phase = accepting; running = p.running + 1 }

-- A thread's connection ended: with `Ok` or `Err` its closure goes on to `fetch_sub`; a panic
-- unwinds past it.
unfoldable pub finish : Ending → Pool → Pool
finish closed p = record p { active = fetch_sub p.active; running = p.running - 1 }
finish io_error p = record p { active = fetch_sub p.active; running = p.running - 1 }
finish panicked p = record p { running = p.running - 1; lost = p.lost + 1 }

pub data Step (p : Pool) : Pool → Type 0 where
  advance : Step p (proceed p.phase p)
  -- `accept` failed: the loop goes on.
  refuse : Step p p
  leave : (e : Ending) → 0 < p.running → Step p (finish e p)

pub data Steps (p : Pool) : Pool → Type 0 where
  here : Steps p p
  more : {q r : Pool} → Steps p q → Step q r → Steps p r
