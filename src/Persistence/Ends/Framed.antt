-- ===== src/Persistence/Ends/Framed.antt =====
-- Statements that leave a part of the tables as it is; `see` is that part.
use durablego.Base.{String, ◌≡◌, ap, ◌∙◌, List, [], ◌∷◌}
use durablego.Persistence.Tables.{EventRow, Tables}
use durablego.Persistence.Session.{Postgres, Tx, statement, for_each}
use durablego.Persistence.Helpers.{append_event, new_event}
use durablego.Persistence.Follows.{Follows}
use durablego.Persistence.Follows.Changes.{event-Follows}
use durablego.Persistence.Ends.{Within, Ends, returns, Ends-bind, Ends-weaken, statement-Ends}

pub record Framed {X : Type 0} (c : Tables) (see : Tables → X) (x : X) (p : Postgres) : Type 0 where
  pub within : Within c p
  pub sight : see p.view ≡ x

pub for_each-kept :
    {A : Type 0} {c : Tables} {I : Postgres → Type 0} (f : A → Tx (Unit {0})) (xs : List A)
    → ((x : A) (p : Postgres) → I p → Ends c (λ _. I) (f x p))
    → (p : Postgres) → I p
    → Ends c (λ _. I) (for_each f xs p)
unfolding for_each
for_each-kept f [] h p w = returns w
for_each-kept f (x ∷ xs) h p w = Ends-bind (f x p) _ (h x p w) (λ _ q v. for_each-kept f xs h q v)

module _ {X : Type 0} {c : Tables} (see : Tables → X) {x : X} where
  pub statement-Framed :
      {A : Type 0} (f : Postgres → A × Tables) (p : Postgres)
      → Framed c see x p
      → Follows p.view (f p).1
      → see (f p).1 ≡ see p.view
      → Ends c (λ a q. Framed c see x q × (a ≡ (f p).0)) (statement f p)
  statement-Framed f p w h same =
      Ends-weaken _ (statement-Ends f p w.within h)
        (λ a q s. (record { within = s.within; sight = ap see s.view ∙ same ∙ w.sight }, s.value))

  pub append_event-Framed :
      ((t : Tables) (es : List EventRow) → see (record t { events = es }) ≡ see t)
      → (wid aid typ msg : String) (p : Postgres) → Framed c see x p
      → Ends c (λ _. Framed c see x) (append_event wid aid typ msg p)
  unfolding append_event
  append_event-Framed same wid aid typ msg p w =
      Ends-weaken _
        (statement-Framed _ p w (event-Follows p.view (new_event wid aid typ msg p))
          (same p.view _))
        (λ _ q s. s.0)
