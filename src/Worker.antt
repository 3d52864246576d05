-- ===== src/Worker.antt =====
-- pkg/worker/worker.go: the runtime that claims activities and runs their handlers, with at most
-- Concurrency of them at a time. A handler is a parameter: what it returns for a claim.
pub mod Reports
use durablego.Base.{
  ℕ, suc, ◌+◌, ◌<◌, ◌≤◌, String, ◌≡◌, ◌≢◌, refl, List, [], ◌∷◌, ◌++◌, length, Option, none, some, ℤ,
  positive_or, arith, ap, Bool, true, false,
}
use durablego.Types.{Claim, no_runnable_activity}
use durablego.Api.Backend.{Failure, known, failure_text, Reply, good, bad, Method}

-- The Backend interface of this package.
pub record WorkerBackend (S : Type 0) : Type 0 where
  pub claim : String → String → Method S Claim
  pub complete : String → String → ℕ → Method S (Unit {0})
  pub fail : String → String → ℕ → Bool → String → Method S (Unit {0})

abbrev pub Handler : Type 0
Handler = Claim → Option Failure

-- The fields that Run reads, after its defaults; durations in nanoseconds.
pub record Runtime : Type 0 where
  pub worker_id : String
  pub task_queue : String
  pub concurrency : ℕ
  pub poll_interval : ℕ
  pub handlers : String → Option Handler

-- The defaults at the start of Run.
unfoldable pub with_defaults : String → String → ℤ → ℤ → (String → Option Handler) → Runtime
with_defaults worker_id task_queue concurrency poll_interval handlers = record {
  worker_id = worker_id;
  task_queue = task_queue;
  concurrency = positive_or concurrency 1;
  poll_interval = positive_or poll_interval 250_000_000;
  handlers = handlers;
}

-- The backend's state after a call whose reply is dropped or only logged.
abbrev pub after_call : {A S : Type 0} → Option (A × S) → Option S
after_call none = none
after_call (some (_, s)) = some s

module _ {S : Type 0} (backend : WorkerBackend S) (r : Runtime) where
  -- The rest of execute after the handler returned.
  unfoldable pub report : Claim → Option Failure → S → Option S
  report c none s = after_call (backend.complete c.activity_id r.worker_id c.fencing_token s)
  report c (some x) s =
      after_call (backend.fail c.activity_id r.worker_id c.fencing_token true (failure_text x) s)

  -- execute
  unfoldable pub execute_with : Option Handler → Claim → S → Option S
  unfolding report
  execute_with none c s =
      after_call
        (backend.fail c.activity_id r.worker_id c.fencing_token false "no handler registered" s)
  execute_with (some h) c s = report c (h c) s

  unfoldable pub execute : Claim → S → Option S
  unfolding execute_with
  execute c = execute_with (r.handlers c.name) c

  -- A step of the loop, of a goroutine, or of anyone else who uses the backend (`Other`); the list holds
  -- the claims whose goroutines have not ended, each of which holds a place of the semaphore.
  pub data Turn (Other : S → S → Type 0) : List Claim × S → List Claim × S → Type 0 where
    takes :
        (flying : List Claim) (c : Claim) (s t : S)
        → length flying < r.concurrency
        → backend.claim r.worker_id r.task_queue s ≡ some (good c, t)
        → Turn Other (flying, s) (c ∷ flying, t)
    waits :
        (flying : List Claim) (s t : S)
        → length flying < r.concurrency
        → backend.claim r.worker_id r.task_queue s ≡ some (bad (known no_runnable_activity), t)
        → Turn Other (flying, s) (flying, t)
    ends :
        (before behind : List Claim) (c : Claim) (s t : S)
        → execute c s ≡ some t
        → Turn Other (before ++ c ∷ behind, s) (before ++ behind, t)
    others : (flying : List Claim) (s t : S) → Other s t → Turn Other (flying, s) (flying, t)

  pub data Turns (Other : S → S → Type 0) : List Claim × S → List Claim × S → Type 0 where
    stay : {p : List Claim × S} → Turns Other p p
    then : {p q o : List Claim × S} → Turns Other p q → Turn Other q o → Turns Other p o

pub length-insert :
    (before behind : List Claim) (c : Claim)
    → length (before ++ c ∷ behind) ≡ suc (length (before ++ behind))
length-insert [] behind c = refl
length-insert (_ ∷ before) behind c = ap suc (length-insert before behind c)

module _ {S : Type 0} (backend : WorkerBackend S) (r : Runtime) (Other : S → S → Type 0) where
  Turn-bounded :
      {p q : List Claim × S}
      → Turn backend r Other p q
      → length p.0 ≤ r.concurrency
      → length q.0 ≤ r.concurrency
  Turn-bounded (takes flying c s t room _) h = omega arith
  Turn-bounded (waits flying s t _ _) h = h
  Turn-bounded (ends before behind c s t _) h = omega (arith, length-insert before behind c)
  Turn-bounded (others flying s t _) h = h

  -- Whatever the backend answers and however the goroutines interleave, no more activities are in
  -- flight than the runtime's concurrency, if no more were at the start.
  pub Turns-bounded :
      {p q : List Claim × S}
      → Turns backend r Other p q
      → length p.0 ≤ r.concurrency
      → length q.0 ≤ r.concurrency
  Turns-bounded stay h = h
  Turns-bounded (Turns.then t x) h = Turn-bounded x (Turns-bounded t h)
