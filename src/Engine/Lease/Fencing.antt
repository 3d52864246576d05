-- ===== src/Engine/Lease/Fencing.antt =====
-- Fencing: exactly the holder of the live lease is heard, and a lease that is lost stays lost.
use durablego.Base.{
  ℕ, ◌<◌, String, ◌≡◌, ◌≢◌, refl, ◌∙◌, ◌⊎◌, inl, inr, ◌↔◌, Bool, true, List, Option, none, some,
  get, text_eq_iff, concat, arith, Bool-cases,
}
use durablego.Types.{
  Activity, ActivityStatus, Err, not_found, invalid_transition, stale_lease, activity_status_text,
}
use durablego.Engine.State.{Engine, M, tick, append_event}
use durablego.Engine.Locked.{current_lease}
use durablego.Engine.Lease.{with_lease, extend, heartbeat, finish, complete, give_up, fail}
use durablego.Engine.Lease.Steps.{
  activity_locked_cases, Accepted, Accepted-run, extend_lease-Accepted, finish_row-Accepted,
  give_up-Accepted,
}
use durablego.Spec.Later.{Kept, Later}
use durablego.Engine.Steps.{read}
use durablego.Engine.Steps.Valid.{EngineIsValid, Step-IsValid}
use durablego.Engine.History.{Call, run}
use durablego.Engine.History.Safety.{run-Later, Steps-of_run}
use durablego.Engine.Steps.Valid.{Steps-IsValid}

-- The worker holds the live lease of the activity, at the clock's next reading.
abbrev pub HoldsLease : String → String → ℕ → Engine → Type 0
HoldsLease id worker token e =
    (a : Activity) × (get id e.activities ≡ some a)
    × (a.status ≡ ActivityStatus.running)
    × (a.lease_owner ≡ worker)
    × (a.fencing_token ≡ token)
    × ((a.lease_expires_at ≡ 0) ⊎ (e.now e.reads < a.lease_expires_at))

abbrev pub Accepts : M (Option Err) → Engine → Type 0
Accepts m e = (f : Engine) × (m e ≡ some (none, f))

-- The errors that a lease call returns.
abbrev pub IsRefusal : Err → Type 0
IsRefusal not_found = Unit {0}
IsRefusal (invalid_transition _) = Unit {0}
IsRefusal stale_lease = Unit {0}
IsRefusal _ = ⊥

-- The call returns one of these errors, and no row has changed.
abbrev pub Rejects : M (Option Err) → Engine → Type 0
Rejects m e =
    (x : Err) × (f : Engine) × (m e ≡ some (some x, f)) × (f.board ≡ e.board) × IsRefusal x

-- The caller holds the lease and is accepted, or does not and is rejected.
abbrev pub Hears : M (Option Err) → String → String → ℕ → Engine → Type 0
Hears m id worker token e =
    (HoldsLease id worker token e × Accepts m e) ⊎ (¬ HoldsLease id worker token e × Rejects m e)

accepted-ne-rejected : (m : M (Option Err)) (e : Engine) → Accepts m e → Rejects m e → ⊥
accepted-ne-rejected m e (f, r) (x, g, q, _, _) = absurd (ground arith)

append_event-board :
    (wid aid typ msg : String) (e : Engine) → (append_event wid aid typ msg e).board ≡ e.board
unfolding append_event
append_event-board wid aid typ msg e = refl

current_lease_iff :
    (a : Activity) (worker : String) (token now : ℕ)
    → (current_lease a worker token now ≡ true) ↔ (
        (a.status ≡ ActivityStatus.running)
        × (a.lease_owner ≡ worker)
        × (a.fencing_token ≡ token)
        × ((a.lease_expires_at ≡ 0) ⊎ (now < a.lease_expires_at)))
unfolding current_lease
current_lease_iff a worker token now = ground (arith, text_eq_iff a.lease_owner worker)

module _ (id worker : String) (token : ℕ) (typ msg : String) (act : Activity → M (Option Err)) where
  pub with_lease_held :
      (e : Engine) (h : HoldsLease id worker token e)
      → with_lease id worker token typ msg act e ≡ act h.0 (tick e)
  unfolding with_lease
  with_lease_held e (a, h, runs, mine, same, live) = elim (activity_locked_cases id e) [
    | inl (n, _) ↦ absurd (ground arith)
    | inr (b, k, inr (idle, _)) ↦ absurd (idle (ground arith))
    | inr (b, k, inl (_, r)) ↦
        let b≡a : b ≡ a = ground arith in
        let t : current_lease a worker token (e.now e.reads) ≡ true =
          (current_lease_iff a worker token (e.now e.reads)).1 (runs, mine, same, live) in
        rw (r, b≡a, t) refl
  ]

  holds_or_Rejects :
      (e : Engine)
      → HoldsLease id worker token e ⊎ Rejects (with_lease id worker token typ msg act) e
  unfolding with_lease
  holds_or_Rejects e = elim (activity_locked_cases id e) [
    | inl (_, r) ↦ inr (not_found, e, rw r refl, refl, tt)
    | inr (b, k, inr (_, r)) ↦ inr (
      invalid_transition (concat "activity is " (activity_status_text b.status)),
      e,
      rw r refl,
      refl,
      tt,
    )
    | inr (b, k, inl (runs, r)) ↦ elim (Bool-cases (current_lease b worker token (e.now e.reads))) [
      | inl t ↦
          let (_, mine, same, live) = (current_lease_iff b worker token (e.now e.reads)).0 t in
          inl (b, k, runs, mine, same, live)
      | inr f ↦ inr (
        stale_lease,
        append_event b.workflow_id b.id typ msg (tick e),
        rw (r, f) refl,
        append_event-board b.workflow_id b.id typ msg (tick e),
        tt,
      )
    ]
  ]

  with_lease-Hears :
      ((a : Activity) (f : Engine)
        → EngineIsValid f
        → get id f.activities ≡ some a
        → a.status ≡ ActivityStatus.running
        → Accepted f (act a f))
      → (e : Engine) → EngineIsValid e
      → Hears (with_lease id worker token typ msg act) id worker token e
  with_lease-Hears acts e v = elim (holds_or_Rejects e) [
    | inl h ↦ inl (h, held h)
    | inr r ↦
        inr (λ h. accepted-ne-rejected (with_lease id worker token typ msg act) e (held h) r, r)
  ]
    where
      held : HoldsLease id worker token e → Accepts (with_lease id worker token typ msg act) e
      held h =
          let (f, r, _) = Accepted-run (acts h.0 (tick e) (Step-IsValid e read v) h.1 h.2) in
          (f, with_lease_held e h ∙ r)

-- A heartbeat, a completion and a failure are each accepted if the caller's worker id and fencing
-- token are those of the row's live lease at the clock's next reading, and otherwise return an error
-- and change no row.
pub lease_calls_fenced :
    (id worker : String) (token : ℕ) (retryable : Bool) (message : String) (e : Engine)
    → EngineIsValid e
    → Hears (heartbeat id worker token) id worker token e
      × Hears (complete id worker token) id worker token e
      × Hears (fail id worker token retryable message) id worker token e
unfolding heartbeat complete fail
lease_calls_fenced id worker token retryable message e v = (
  with_lease-Hears id worker token _ _ (extend id worker)
      (λ a f _ h runs. extend_lease-Accepted id worker a f h runs) e v,
  with_lease-Hears id worker token _ _ (finish id) (finish_row-Accepted id) e v,
  with_lease-Hears id worker token _ _ (give_up id retryable message)
      (give_up-Accepted id retryable message) e v,
)

-- The token has been overtaken by a later claim, or its activity no longer runs.
abbrev pub IsLost : String → ℕ → Engine → Type 0
IsLost id token e =
    (a : Activity) × (get id e.activities ≡ some a)
    × ((token < a.fencing_token)
        ⊎ ((a.fencing_token ≡ token) × (a.status ≢ ActivityStatus.running)))

lost-not-HoldsLease :
    (id worker : String) (token : ℕ) (e f : Engine)
    → Later e.board f.board
    → IsLost id token e
    → ¬ HoldsLease id worker token f
lost-not-HoldsLease id worker token e f l (a, h, lost) (b, k, runs, _, same, _) =
    let (a', h', kept) = l.activity id a h in
    let b≡a' : b ≡ a' = ground arith in absurd (gone kept (rw b≡a' at runs) (rw b≡a' at same))
  where
    gone :
        {a' : Activity}
        → Kept a a'
        → a'.status ≡ ActivityStatus.running
        → a'.fencing_token ≡ token
        → ⊥
    gone kept runs same = ground arith

shut_out-Rejects :
    (m : M (Option Err)) (id worker : String) (token : ℕ) (e : Engine)
    → Hears m id worker token e
    → ¬ HoldsLease id worker token e
    → Rejects m e
shut_out-Rejects m id worker token e (inl (h, _)) n = absurd (n h)
shut_out-Rejects m id worker token e (inr (_, r)) n = r

-- A worker whose lease was lost, because a later claim overtook its token or because the activity
-- stopped running, stays shut out: after any further history each of its heartbeats, completions and
-- failures under that token returns an error and changes no row.
pub lost_lease_stays_lost :
    (id worker : String) (token : ℕ) (retryable : Bool) (message : String) (cs : List Call)
    (e f : Engine)
    → EngineIsValid e
    → IsLost id token e
    → run cs e ≡ some f
    → Rejects (heartbeat id worker token) f
      × Rejects (complete id worker token) f
      × Rejects (fail id worker token retryable message) f
lost_lease_stays_lost id worker token retryable message cs e f v lost r =
    let shut_out = lost-not-HoldsLease id worker token e f (run-Later cs e f v r) lost in
    let (a, b, c) =
      lease_calls_fenced id worker token retryable message f
        (Steps-IsValid e (Steps-of_run cs e f v r) v) in
    (
      shut_out-Rejects (heartbeat id worker token) id worker token f a shut_out,
      shut_out-Rejects (complete id worker token) id worker token f b shut_out,
      shut_out-Rejects (fail id worker token retryable message) id worker token f c shut_out,
    )
