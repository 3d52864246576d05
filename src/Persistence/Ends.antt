-- ===== src/Persistence/Ends.antt =====
-- How a method of internal/persistence/postgres.go can end, one rule for each way to build it.
pub mod Framed
pub mod Helpers
pub mod Rows
pub mod Lease
pub mod Claim
pub mod Cancel
pub mod Start
use durablego.Base.{
  ℕ, suc, ◌<◌, String, ◌≡◌, refl, sym, ap, ◌∙◌, ◌⊎◌, inl, inr, Bool, true, false, List, [], ◌∷◌,
  Option, none, some, arith, Bool-cases, Option-cases, subst,
}
use durablego.Types.{stale_lease}
use durablego.Api.Backend.{Failure, known, other, Reply, good, bad}
use durablego.Persistence.Tables.{Tables}
use durablego.Persistence.Session.{
  Driver, Postgres, Tx, pure, raise, follow, ◌>>=◌, ◌>>◌, met, driver_call, statement, begin,
  commit, rollback, attempt, rolled_back, for_each, commit_met, explained, explain,
}
use durablego.Persistence.Follows.{IsKeyed, Follows, Follows-refl, Follows-trans}

-- In a transaction that began on the tables `c`.
pub record Within (c : Tables) (p : Postgres) : Type 0 where
  pub base : p.committed ≡ c
  pub follows : Follows c p.view
  pub keyed : IsKeyed c.activities
  pub attempts : 0 < p.max_attempts

-- What is committed follows the tables `c`.
pub record Committed (c : Tables) (p : Postgres) : Type 0 where
  pub follows : Follows c p.committed
  pub attempts : 0 < p.max_attempts

-- The last call of the driver was a COMMIT that reported an error and took effect all the same.
pub record Landed (p : Postgres) : Type 0 where
  pub call : ℕ
  pub last : p.calls ≡ suc call
  pub text : String
  pub failed : p.driver.fault call ≡ some text
  pub lands : p.driver.lands call ≡ true

-- It returned a value of which `Q` holds; or it returned an error and has committed nothing; or it
-- returned the error of a stale lease, and has committed no change of an activity or a workflow; or, if
-- it `may`, it returned the error of a COMMIT that took effect.
pub data EndsIf {A : Type 0} (may : Type 0) (c : Tables) (Q : A → Postgres → Type 0)
    : Reply A × Postgres → Type 0 where
  returns : {a : A} {p : Postgres} → Q a p → EndsIf may c Q (good a, p)
  raises :
      {x : Failure} {p : Postgres}
      → p.committed ≡ c
      → 0 < p.max_attempts
      → EndsIf may c Q (bad x, p)
  outdated :
      {p : Postgres}
      → Committed c p
      → p.committed.activities ≡ c.activities
      → p.committed.workflows ≡ c.workflows
      → EndsIf may c Q (bad (known stale_lease), p)
  unsure : {x : Failure} {p : Postgres} → may → Committed c p → Landed p → EndsIf may c Q (bad x, p)

abbrev pub Ends : {A : Type 0} → Tables → (A → Postgres → Type 0) → Reply A × Postgres → Type 0
Ends c Q = EndsIf (Unit {0}) c Q

module _ {A : Type 0} {may : Type 0} {c : Tables} {Q : A → Postgres → Type 0} where
  pub Ends-pure : (a : A) (p : Postgres) → Q a p → EndsIf may c Q (pure a p)
  Ends-pure a p q = returns q

  pub Ends-raise : (x : Failure) (p : Postgres) → Within c p → EndsIf may c Q (raise {A = A} x p)
  Ends-raise x p w = raises w.base w.attempts

  pub Ends-explain :
      (what : String) (r : Reply A × Postgres)
      → EndsIf may c Q r
      → EndsIf may c Q (explained what r)
  unfolding explained
  Ends-explain what _ (returns q) = returns q
  Ends-explain what (bad (other _), p) (raises b m) = raises b m
  Ends-explain what (bad (known _), p) (raises b m) = raises b m
  Ends-explain what _ (outdated k s u) = outdated k s u
  Ends-explain what (bad (other _), p) (unsure y k l) =
      unsure y k
        (record { call = l.call; last = l.last; text = l.text; failed = l.failed; lands = l.lands })
  Ends-explain what (bad (known _), p) (unsure y k l) = unsure y k l

  pub Ends-weaken :
      {Q' : A → Postgres → Type 0} (r : Reply A × Postgres)
      → EndsIf may c Q r
      → ((a : A) (p : Postgres) → Q a p → Q' a p)
      → EndsIf may c Q' r
  Ends-weaken _ (returns {a} {p} q) k = returns (k a p q)
  Ends-weaken _ (raises b m) k = raises b m
  Ends-weaken _ (outdated o s u) k = outdated o s u
  Ends-weaken _ (unsure y o l) k = unsure y o l

module _ {A B : Type 0} {may : Type 0} {c : Tables} {Q : A → Postgres → Type 0}
    {Q' : B → Postgres → Type 0} where
  pub Ends-bind :
      (r : Reply A × Postgres) (k : A → Tx B)
      → EndsIf may c Q r
      → ((a : A) (p : Postgres) → Q a p → EndsIf may c Q' (k a p))
      → EndsIf may c Q' (follow r k)
  unfolding follow
  Ends-bind _ k (returns {a} {p} q) h = h a p q
  Ends-bind _ k (raises b m) h = raises b m
  Ends-bind _ k (outdated o s u) h = outdated o s u
  Ends-bind _ k (unsure y o l) h = unsure y o l

-- What a statement that met no fault has done.
pub record Stated {A : Type 0} (c : Tables) (p : Postgres) (f : Postgres → A × Tables) (a : A)
    (q : Postgres) : Type 0 where
  pub within : Within c q
  pub value : a ≡ (f p).0
  pub view : q.view ≡ (f p).1
  pub started : q.started ≡ p.started

pub statement-Ends :
    {A : Type 0} {may : Type 0} {c : Tables} (f : Postgres → A × Tables) (p : Postgres)
    → Within c p
    → Follows p.view (f p).1
    → EndsIf may c (Stated c p f) (statement f p)
unfolding statement driver_call met
statement-Ends f p w h = elim (Option-cases (p.driver.fault p.calls)) [
  | inl fine ↦ rw fine (
      returns (record {
        within = record {
          base = w.base;
          follows = Follows-trans _ p.view _ w.follows h;
          keyed = w.keyed;
          attempts = w.attempts;
        };
        value = refl;
        view = refl;
        started = refl;
      }))
  | inr (text, e) ↦ rw e (raises w.base w.attempts)
]

-- A new transaction sees what is committed.
pub record Begun (c : Tables) (p q : Postgres) : Type 0 where
  pub within : Within c q
  pub view : q.view ≡ c
  pub started : q.started ≡ p.driver.clock p.calls
  pub lease_ttl : q.lease_ttl ≡ p.lease_ttl
  pub driver : q.driver ≡ p.driver
  pub calls : q.calls ≡ suc p.calls

pub begin-Ends :
    {may : Type 0} (p : Postgres)
    → 0 < p.max_attempts
    → IsKeyed p.committed.activities
    → EndsIf may p.committed (λ _. Begun p.committed p) (begin p)
unfolding begin driver_call met
begin-Ends p m k = elim (Option-cases (p.driver.fault p.calls)) [
  | inl fine ↦ rw fine (
      returns (record {
        within = record {
          base = refl;
          follows = Follows-refl p.committed;
          keyed = k;
          attempts = m;
        };
        view = refl;
        started = refl;
        lease_ttl = refl;
        driver = refl;
        calls = refl;
      }))
  | inr (text, e) ↦ rw e (raises refl m)
]

pub commit-Ends :
    {c : Tables} (p : Postgres)
    → Within c p
    → Ends c (λ _ q. Committed c q × (q.committed ≡ p.view)) (commit p)
unfolding commit commit_met
commit-Ends p w = elim (Option-cases (p.driver.fault p.calls)) [
  | inl fine ↦ rw fine (returns (record { follows = w.follows; attempts = w.attempts }, refl))
  | inr (text, e) ↦ elim (Bool-cases (p.driver.lands p.calls)) [
    | inl landed ↦
        rw (e, landed)
          (unsure tt (record { follows = w.follows; attempts = w.attempts })
            (record { call = p.calls; last = refl; text = text; failed = e; lands = landed }))
    | inr lost ↦ rw (e, lost) (raises w.base w.attempts)
  ]
]

pub rollback-Ends : {c : Tables} (p : Postgres) → Within c p → Ends c (λ _. Within c) (rollback p)
unfolding rollback driver_call met
rollback-Ends {c} p w = elim (Option-cases (p.driver.fault p.calls)) [
  | inl fine ↦ rw fine (
      returns (record {
        base = w.base;
        follows = rw w.base (Follows-refl c);
        keyed = w.keyed;
        attempts = w.attempts;
      }))
  | inr (text, e) ↦ rw e (raises w.base w.attempts)
]

module _ {A : Type 0} {c : Tables} where
  pub for_each-Ends :
      (f : A → Tx (Unit {0})) (xs : List A)
      → ((x : A) (p : Postgres) → Within c p → Ends c (λ _. Within c) (f x p))
      → (p : Postgres) → Within c p
      → Ends c (λ _. Within c) (for_each f xs p)
  unfolding for_each
  for_each-Ends f [] h p w = returns w
  for_each-Ends f (x ∷ xs) h p w = Ends-bind (f x p) _ (h x p w) (λ _ q v. for_each-Ends f xs h q v)

-- The deferred rollback changes only what the transaction saw.
pub rolled_back-Ends :
    {A : Type 0} {may : Type 0} {c : Tables} {Q Q' : A → Postgres → Type 0} (r : Reply A × Postgres)
    → EndsIf may c Q r
    → ((a : A) (q : Postgres) → Q a q → Q' a (record q { view = q.committed }))
    → EndsIf may c Q' (rolled_back r)
unfolding rolled_back
rolled_back-Ends _ (returns {a} {p} q) k = returns (k a p q)
rolled_back-Ends _ (raises b m) k = raises b m
rolled_back-Ends _ (outdated o s u) k =
    outdated (record { follows = o.follows; attempts = o.attempts }) s u
rolled_back-Ends _ (unsure y o l) k =
    unsure y (record { follows = o.follows; attempts = o.attempts })
      (record { call = l.call; last = l.last; text = l.text; failed = l.failed; lands = l.lands })

-- What was returned.
pub good-Ends :
    {A : Type 0} {may : Type 0} {c : Tables} {Q : A → Postgres → Type 0} (r : Reply A × Postgres)
    (a : A) (q : Postgres)
    → EndsIf may c Q r
    → r ≡ (good a, q)
    → Q a q
good-Ends {Q = Q} _ a q (returns {a = b} {p = s} h) e =
    let same : b ≡ a = ground arith in
    let state : s ≡ q = ap (λ (x : Reply _ × Postgres). x.1) e in
    subst (λ (x : _). Q x q) same (subst (Q b) state h)
good-Ends _ a q (raises _ _) e = absurd (ground arith)
good-Ends _ a q (outdated _ _ _) e = absurd (ground arith)
good-Ends _ a q (unsure _ _ _) e = absurd (ground arith)
