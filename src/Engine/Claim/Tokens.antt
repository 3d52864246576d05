-- ===== src/Engine/Claim/Tokens.antt =====
-- Claims over a history: what a claim grants, and how fencing tokens go on.
use durablego.Base.{
  ◌+◌, ◌<◌, ◌≤◌, String, ◌≡◌, refl, sym, ap, ◌∙◌, inl, inr, List, some, get, arith,
}
use durablego.Types.{Activity, ActivityStatus, Claim, ok}
use durablego.Engine.State.{Engine}
use durablego.Engine.Claim.{claimed, claim_of, claim}
use durablego.Engine.Claim.Choice.{Grants, claim_cases}
use durablego.Engine.Claim.Steps.{claim-Lawful}
use durablego.Spec.Move.{DepsDone}
use durablego.Engine.Steps.{Steps}
use durablego.Engine.Steps.Valid.{EngineIsValid, Steps-IsValid}
use durablego.Engine.Steps.Lawful.{Lawful-run}
use durablego.Engine.History.{Call, run}
use durablego.Engine.History.Safety.{run-Later, Steps-of_run}

-- A claim that was returned is the granted row's.
pub claim-Grants :
    (worker queue : String) (e f : Engine) (c : Claim)
    → claim worker queue e ≡ some (ok c, f)
    → (id : String) × (a : Activity) × (g : Grants worker queue id a e) × (g.after ≡ f)
      × (claim_of (claimed worker (e.now e.reads + e.lease_ttl) a) ≡ c)
claim-Grants worker queue e f c h = elim (claim_cases worker queue e) [
  | inl (r, _) ↦ absurd (ground arith)
  | inr (id, a, g) ↦ (id, a, g, ground (arith, g.returns), ground (arith, g.returns))
]

claim-Steps :
    (worker queue : String) (e f : Engine) (c : Claim)
    → claim worker queue e ≡ some (ok c, f)
    → Steps e f
claim-Steps worker queue e f c h =
    let (_, g, r, s) = Lawful-run (claim-Lawful worker queue e) in
    let same : g ≡ f = ground arith in rw same at s

-- The activity that a claim names runs, under the claim's worker, token and attempt, which is within
-- the attempts that the activity is allowed; and each of its dependencies is met: some activity of its
-- workflow has the name, and every one that has it is completed.
pub claim_lem :
    (worker queue : String) (e f : Engine) (c : Claim)
    → EngineIsValid e
    → claim worker queue e ≡ some (ok c, f)
    → (a : Activity) × (get c.activity_id f.activities ≡ some a)
      × (a.status ≡ ActivityStatus.running)
      × (a.lease_owner ≡ worker)
      × (a.fencing_token ≡ c.fencing_token)
      × (a.attempt ≡ c.attempt)
      × (c.attempt ≤ a.max_attempts)
      × DepsDone f.board a
unfolding claimed claim_of
claim_lem worker queue e f c v h =
    let (id, a, g, after, same) = claim-Grants worker queue e f c h in
    let named : id ≡ c.activity_id = sym (v.rows.ident id a g.row) ∙ ap (λ x. x.activity_id) same in
    let stored : get c.activity_id f.activities
        ≡ some (claimed worker (e.now e.reads + e.lease_ttl) a) =
      rw (← named, ← after) g.stored in
    let w = Steps-IsValid e (claim-Steps worker queue e f c h) v in
    (
      claimed worker (e.now e.reads + e.lease_ttl) a,
      stored,
      refl,
      refl,
      ap (λ x. x.fencing_token) same,
      ap (λ x. x.attempt) same,
      ground (arith, w.rows.counts c.activity_id _ stored, same),
      w.rows.deps c.activity_id _ stored (λ x. absurd (cc), λ x. absurd (cc)),
    )

-- Two claims of one activity, the second after any history, have different fencing tokens: the later
-- one's is higher.
pub later_claim_higher_token :
    (worker queue worker' queue' : String) (cs : List Call) (e f g h : Engine) (c c' : Claim)
    → EngineIsValid e
    → claim worker queue e ≡ some (ok c, f)
    → run cs f ≡ some g
    → claim worker' queue' g ≡ some (ok c', h)
    → c'.activity_id ≡ c.activity_id
    → c.fencing_token < c'.fencing_token
unfolding claimed claim_of
later_claim_higher_token worker queue worker' queue' cs e f g h c c' v first r second same =
    let (a, stored, _, _, token, _, _, _) = claim_lem worker queue e f c v first in
    let w = Steps-IsValid e (claim-Steps worker queue e f c first) v in
    let (b, later, kept) = (run-Later cs f g w r).activity c.activity_id a stored in
    let x = Steps-IsValid f (Steps-of_run cs f g w r) w in
    let (id, d, gr, _, shown) = claim-Grants worker' queue' g h c' second in
    let named : id ≡ c.activity_id =
      sym (x.rows.ident id d gr.row) ∙ ap (λ y. y.activity_id) shown ∙ same in
    let d≡b : some d ≡ some b = sym gr.row ∙ ap (λ i. get i g.activities) named ∙ later in
    ground (arith, ap (λ y. y.fencing_token) shown)
