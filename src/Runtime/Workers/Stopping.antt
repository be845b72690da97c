-- ===== src/Runtime/Workers/Stopping.antt =====
-- Which workers the parent stops, and when its loop ends.
use mathlib.Core.Bool.{false≢true}
use mathlib.Core.Path.{subst}
use vignemale.Prelude.{
  All, Bool-cases, Elem, List, [], ap, arith, false, inl, inr, is_empty, nat_eq, not, opt_eq,
  pair_eq, refl, sym, true, ℕ, ◌&&◌, ◌++◌, ◌==◌, ◌||◌, ◌∙◌, ◌∷◌, ◌≡◌, ◌≢◌, ◌⊎◌,
}
use vignemale.Prelude.Text.{text_eq}
use vignemale.Runtime.Workers.{
  Event, Parent, discard, ended, exited, no_child, react, start_workers, stop, stop_signal,
  supervise, wait_interrupted,
}

-- Either nobody has been told to stop, or every worker has, once.
abbrev pub AllOrNone : List ℕ → Parent → Type 0
AllOrNone pids p =
    (p.children ≡ pids)
    × (((p.stopping ≡ false) × (p.signalled ≡ [])) ⊎ ((p.stopping ≡ true) × (p.signalled ≡ pids)))

stop-AllOrNone : (pids : List ℕ) (p : Parent) → AllOrNone pids p → AllOrNone pids (stop p)
unfolding stop
stop-AllOrNone pids p (same, inl (running, silent)) =
    rw running (same, inr (refl, ap (λ xs. xs ++ p.children) silent ∙ same))
stop-AllOrNone pids p (same, inr (stopping, told)) = rw stopping (same, inr (refl, told))

react-AllOrNone :
    (pids : List ℕ) (e : Event) (p : Parent) → AllOrNone pids p → AllOrNone pids (react e p)
unfolding react
react-AllOrNone pids (exited pid) p h =
    let left = record p { alive = discard pid p.alive } in
    elim (Bool-cases (not p.stopping && not (is_empty (discard pid p.alive)))) [
      | inl stops ↦ rw stops (stop-AllOrNone pids left h)
      | inr goes_on ↦ rw goes_on h
    ]
react-AllOrNone pids wait_interrupted p h = h
react-AllOrNone pids no_child p h = h
react-AllOrNone pids stop_signal p h = stop-AllOrNone pids p h

supervise-keeps :
    (pids : List ℕ) (events : List Event) (p : Parent)
    → AllOrNone pids p
    → AllOrNone pids (supervise events p)
unfolding supervise
supervise-keeps pids [] p h = h
supervise-keeps pids (e ∷ events) p h = elim (Bool-cases (ended p)) [
  | inl over ↦ rw over h
  | inr on ↦ rw on (supervise-keeps pids events (react e p) (react-AllOrNone pids e p h))
]

-- Whatever happens and in whatever order: the parent sends SIGINT to every worker, once each, or to
-- none, and to all of them as soon as it is stopping.
pub supervise-AllOrNone :
    (pids : List ℕ) (events : List Event) → AllOrNone pids (supervise events (start_workers pids))
unfolding start_workers
supervise-AllOrNone pids events =
    supervise-keeps pids events (start_workers pids) (refl, inl (refl, refl))

alive-stop : (p : Parent) → (stop p).alive ≡ p.alive
unfolding stop
alive-stop p = ground arith

alive-exited : (pid : ℕ) (p : Parent) → (react (exited pid) p).alive ≡ discard pid p.alive
unfolding react stop
alive-exited pid p = ground arith

-- The death of one worker stops the others: after an exit that leaves another worker alive, the
-- parent is stopping.
pub react-stopping :
    (pid : ℕ) (p : Parent)
    → is_empty (react (exited pid) p).alive ≡ false
    → (react (exited pid) p).stopping ≡ true
unfolding react stop
react-stopping pid p others = ground arith

-- Every worker that is alive exits in one of the events.
abbrev AllExit : List Event → List ℕ → Type 0
AllExit events pids = All (λ pid. Elem (exited pid) events) pids

exited-injective : {a b : ℕ} → exited a ≡ exited b → a ≡ b
exited-injective h = cc

discard-AllExit :
    (pid : ℕ) (events : List Event) (pids : List ℕ)
    → AllExit (exited pid ∷ events) pids
    → AllExit events (discard pid pids)
unfolding discard
discard-AllExit pid events [] h = tt
discard-AllExit pid events (q ∷ pids) h = elim (Bool-cases (q == pid)) [
  | inl gone ↦ rw gone (discard-AllExit pid events pids h.1)
  | inr stays ↦ rw stays (
    elim h.0 [
      | inl e ↦ absurd (false≢true (sym stays ∙ (nat_eq.beq_iff q pid).1 (exited-injective e)))
      | inr m ↦ m
    ],
    discard-AllExit pid events pids h.1,
  )
]

tail-AllExit :
    (e : Event) (events : List Event) (pids : List ℕ)
    → ((pid : ℕ) → exited pid ≢ e)
    → AllExit (e ∷ events) pids
    → AllExit events pids
tail-AllExit e events [] other_event h = tt
tail-AllExit e events (q ∷ pids) other_event h = (
  elim h.0 [ inl p ↦ absurd (other_event q p) | inr m ↦ m ],
  tail-AllExit e events pids other_event h.1,
)

react-AllExit :
    (e : Event) (events : List Event) (p : Parent)
    → AllExit (e ∷ events) p.alive
    → AllExit events (react e p).alive
react-AllExit (exited pid) events p h =
    subst (λ xs. AllExit events xs) (sym (alive-exited pid p))
      (discard-AllExit pid events p.alive h)
react-AllExit wait_interrupted events p h =
    unfold react in tail-AllExit wait_interrupted events p.alive (λ pid e. cc) h
react-AllExit no_child events p h =
    unfold react in tail-AllExit no_child events p.alive (λ pid e. cc) h
react-AllExit stop_signal events p h =
    unfold react in
    subst (λ xs. AllExit events xs) (sym (alive-stop p))
      (tail-AllExit stop_signal events p.alive (λ pid e. cc) h)

supervise-ended :
    (events : List Event) (p : Parent) → AllExit events p.alive → ended (supervise events p) ≡ true
unfolding supervise
supervise-ended [] p h = ap (λ b. b || p.broke) (no_one p.alive h)
  where
    no_one : (pids : List ℕ) → AllExit [] pids → is_empty pids ≡ true
    no_one [] k = refl
    no_one (q ∷ pids) k = absurd k.0
supervise-ended (e ∷ events) p h = elim (Bool-cases (ended p)) [
  | inl over ↦ rw over over
  | inr on ↦ rw on (supervise-ended events (react e p) (react-AllExit e events p h))
]

-- The loop ends as soon as every worker has exited, whatever else happens in between and in
-- whatever order they exit.
pub supervise_ends :
    (pids : List ℕ) (events : List Event)
    → All (λ pid. Elem (exited pid) events) pids
    → ended (supervise events (start_workers pids)) ≡ true
unfolding start_workers
supervise_ends pids events h = supervise-ended events (start_workers pids) h
