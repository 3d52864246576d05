-- ===== src/Examples/Database/Serving.antt =====
-- The API server and the scheduler over the Postgres backend.
use durablego.Base.{pos, inl, inr, false}
use durablego.Config.{Config}
use durablego.Api.Messages.{start_workflow, Request, Decoders}
use durablego.Persistence.Tables.{empty_tables}
use durablego.Persistence.History.Safety.{new_postgres-IsReady}
use durablego.Persistence.Serving.{api_store, api_handler, Answered, api_handler-Answered}
use durablego.Examples.{order}
use durablego.Scheduler.{Scheduler}
use durablego.Examples.Database.{driver}

abbrev config : Config
config = record {
  addr = ":8080";
  database_url = "postgres://localhost/durablego";
  lease_ttl = pos 30_000_000_000;
  max_attempts = 3;
  worker_id = "a";
  api_key = "secret";
}

abbrev decoders : Decoders
decoders = record {
  start = λ _. inr (record {
    namespace = order.namespace;
    name = order.name;
    idempotency_key = "k";
    activities = order.activities;
  });
  poll = λ _. inl "unexpected EOF";
  lease = λ _. inl "unexpected EOF";
  fail = λ _. inl "unexpected EOF";
}

abbrev order_request : Request
order_request = record { authorization = "Bearer secret"; route = start_workflow "{}" }

api_handler-Answered_example :
    Answered
      (api_store config driver empty_tables)
      (api_handler config decoders order_request (api_store config driver empty_tables))
unfolding api_store
api_handler-Answered_example =
    api_handler-Answered config decoders order_request (api_store config driver empty_tables)
      (new_postgres-IsReady driver (pos 30_000_000_000) (pos 3))

-- A scheduler without a logger, that ticks once before its context is done.
abbrev sched : Scheduler
sched = record { interval = pos 0; logger = false }
