-- ===== src/Runtime/Workers.antt =====
-- The parent process of `_serve_workers` of `vignemale/__main__.py`, as a machine that reacts to what
-- `os.wait` gives and to signals.
pub mod Stopping
use vignemale.Prelude.{
  Bool, List, [], false, if◌then◌else◌, is_empty, keep, nat_eq, not, opt_eq, pair_eq, true, ℕ, ◌&&◌,
  ◌++◌, ◌==◌, ◌||◌, ◌∷◌,
}
use vignemale.Prelude.Text.{text_eq}

-- What the parent has: the workers that it forked, those that have not exited, whether it is
-- stopping, the processes that it has sent SIGINT to, in order, and whether it left the loop by
-- `break`.
pub record Parent : Type 0 where
  pub children : List ℕ
  pub alive : List ℕ
  pub stopping : Bool
  pub signalled : List ℕ
  pub broke : Bool

-- A worker exits; `os.wait` is interrupted, or finds no child; SIGINT or SIGTERM arrives.
pub data Event : Type 0 where
  exited : ℕ → Event
  wait_interrupted no_child stop_signal : Event

unfoldable pub start_workers : List ℕ → Parent
start_workers pids = record {
  children = pids;
  alive = pids;
  stopping = false;
  signalled = [];
  broke = false;
}

-- `_stop()`
unfoldable pub stop : Parent → Parent
stop p =
    if p.stopping then p else record p { stopping = true; signalled = p.signalled ++ p.children }

-- alive.discard(pid)
unfoldable pub discard : ℕ → List ℕ → List ℕ
discard pid pids = keep (λ q. not (q == pid)) pids

-- One event.
unfoldable pub react : Event → Parent → Parent
unfolding stop discard
react (exited pid) p =
    let left = record p { alive = discard pid p.alive } in
    if not left.stopping && not (is_empty left.alive) then stop left else left
react wait_interrupted p = p
react no_child p = record p { broke = true }
react stop_signal p = stop p

abbrev pub ended : Parent → Bool
ended p = is_empty p.alive || p.broke

-- `while alive:`
unfoldable pub supervise : List Event → Parent → Parent
unfolding react
supervise [] p = p
supervise (e ∷ events) p = let next = supervise events (react e p) in if ended p then p else next
