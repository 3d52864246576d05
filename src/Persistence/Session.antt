-- ===== src/Persistence/Session.antt =====
-- The connection pool of internal/persistence/postgres.go, its transactions and statements, and what
-- pgx and PostgreSQL give for them.
use durablego.Base.{
  Bool, if◌then◌else◌, ℕ, suc, ◌*◌, String, List, [], ◌∷◌, Option, none, some, ℤ, positive_or,
  concat,
}
use durablego.Engine.State.{second}
use durablego.Api.Backend.{Failure, other, Reply, good, bad}
use durablego.Persistence.Tables.{ActivityRow, Tables}

-- What the k-th call of the driver meets: an error, if the call fails; the time, as now() of a
-- transaction that begins then; a random uuid; the next value of a sequence; whether a COMMIT that
-- reported an error has taken effect all the same, which a lost connection leaves open; and which
-- activities another transaction holds locked. `arrange` is the order in which RETURNING gives the rows of
-- an UPDATE, which SQL leaves open.
pub record Driver : Type 0 where
  pub fault : ℕ → Option String
  pub clock : ℕ → ℕ
  pub uuid : ℕ → String
  pub serial : ℕ → ℕ
  pub lands : ℕ → Bool
  pub locked : ℕ → String → Bool
  pub arrange : List ActivityRow → List ActivityRow

-- The Postgres struct, with the tables as they are committed and as the open transaction sees them.
-- `started` is now(), the time at which the transaction began; `crash_before_commit` is the error of
-- the hook of that name, if it is set and returns one.
pub record Postgres : Type 0 where
  pub driver : Driver
  pub lease_ttl : ℕ
  pub max_attempts : ℕ
  pub crash_before_commit : Option String
  pub committed : Tables
  pub view : Tables
  pub calls : ℕ
  pub started : ℕ

-- NewPostgres, once the pool is connected.
unfoldable pub new_postgres : Driver → ℤ → ℤ → Tables → Postgres
new_postgres driver lease_ttl max_attempts tables = record {
  driver = driver;
  lease_ttl = positive_or lease_ttl (30 * second);
  max_attempts = positive_or max_attempts 3;
  crash_before_commit = none;
  committed = tables;
  view = tables;
  calls = 0;
  started = 0;
}

-- A method, or a part of one: it returns a value or an error.
abbrev pub Tx : Type 0 → Type 0
Tx A = Postgres → Reply A × Postgres

abbrev pub pure : {A : Type 0} → A → Tx A
pure a p = (good a, p)

abbrev pub raise : {A : Type 0} → Failure → Tx A
raise x p = (bad x, p)

-- The rest after an action's reply: an error is returned at once.
unfoldable pub follow : {A B : Type 0} → Reply A × Postgres → (A → Tx B) → Reply B × Postgres
follow (good a, p) k = k a p
follow (bad x, p) k = (bad x, p)

infixl 5 ◌>>=◌ ◌>>◌
abbrev pub ◌>>=◌ : {A B : Type 0} → Tx A → (A → Tx B) → Tx B
◌>>=◌ m k p = follow (m p) k

abbrev pub ◌>>◌ : {A B : Type 0} → Tx A → Tx B → Tx B
m >> k = m >>= λ _. k

-- A call of the driver other than Commit: it fails, or does its work.
unfoldable pub met : {A : Type 0} → Option String → (Postgres → A × Postgres) → Tx A
met none f p = let (a, q) = f p in (good a, record q { calls = suc p.calls })
met (some text) f p = (bad (other text), record p { calls = suc p.calls })

unfoldable pub driver_call : {A : Type 0} → (Postgres → A × Postgres) → Tx A
driver_call f p = met (p.driver.fault p.calls) f p

-- Exec, Query and QueryRow: a statement reads and changes what the transaction sees.
unfoldable pub statement : {A : Type 0} → (Postgres → A × Tables) → Tx A
unfolding driver_call
statement f = driver_call (λ p. let (a, t) = f p in (a, record p { view = t }))

-- BeginTx. PostgreSQL's default isolation, with no other transaction open.
unfoldable pub begin : Tx (Unit {0})
unfolding driver_call
begin = driver_call (λ p. (tt, record p { view = p.committed; started = p.driver.clock p.calls }))

-- Commit: after an error, it may have taken effect or not.
unfoldable pub commit_met : Option String → Tx (Unit {0})
commit_met none p = (good tt, record p { committed = p.view; calls = suc p.calls })
commit_met (some text) p = (
  bad (other text),
  record p {
    committed = if p.driver.lands p.calls then p.view else p.committed;
    calls = suc p.calls;
  },
)

unfoldable pub commit : Tx (Unit {0})
unfolding commit_met
commit p = commit_met (p.driver.fault p.calls) p

unfoldable pub rollback : Tx (Unit {0})
unfolding driver_call
rollback = driver_call (λ p. (tt, record p { view = p.committed }))

-- `_ = …`: an error is dropped.
unfoldable pub attempt : {A : Type 0} → Tx A → Tx (Unit {0})
attempt m p = (good tt, (m p).1)

-- `defer rollback(ctx, tx)`: what was not committed when the method returns is gone.
unfoldable pub rolled_back : {A : Type 0} → Reply A × Postgres → Reply A × Postgres
rolled_back (r, q) = (r, record q { view = q.committed })

unfoldable pub deferring_rollback : {A : Type 0} → Tx A → Tx A
unfolding rolled_back
deferring_rollback m p = rolled_back (m p)

-- A loop of calls, one for each element.
unfoldable pub for_each : {A : Type 0} → (A → Tx (Unit {0})) → List A → Tx (Unit {0})
for_each f [] = pure tt
for_each f (x ∷ xs) = do f x; for_each f xs

-- fmt.Errorf("…: %w", err): the text grows, a sentinel stays what it is.
unfoldable pub explained : {A : Type 0} → String → Reply A × Postgres → Reply A × Postgres
explained what (bad (other text), p) = (bad (other (concat what (concat ": " text))), p)
explained what r = r

abbrev pub explain : {A : Type 0} → String → Tx A → Tx A
explain what m p = explained what (m p)
