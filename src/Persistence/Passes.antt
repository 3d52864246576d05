-- ===== src/Persistence/Passes.antt =====
-- What a pass of the scheduler over the Postgres backend leaves to do.
pub mod Settled
use durablego.Base.{ℕ, ◌≡◌, not, [], ◌∷◌, ◌&&◌, ◌||◌, In-map, map, any, leb, ltb, text_eq}
use durablego.Types.{is_completed, is_retry_pending}
use durablego.Persistence.Tables.{DependencyRow, Tables}
use durablego.Persistence.Session.{Postgres, Tx, for_each}
use durablego.Persistence.Helpers.{is_blocked}
use durablego.Persistence.Follows.Changes.{updated}
use durablego.Persistence.Ends.{Within, Ends}
use durablego.Persistence.Passes.Settled.{IsSettled}

-- In a transaction that began at `now`, with the activities and dependencies of `t`.
record Beside (c t : Tables) (now : ℕ) (p : Postgres) : Type 0 where
  within : Within c p
  activities : p.view.activities ≡ t.activities
  dependencies : p.view.dependencies ≡ t.dependencies
  started : p.started ≡ now

-- What release_ready leaves.
record Released (c : Tables) (now : ℕ) (p : Postgres) : Type 0 where
  within : Within c p
  settled : IsSettled now p.view
