-- ===== src/Process/Servers.antt =====
-- NewQueueClient, NewQueueServer, RegisterHandler and Start of internal/queue/queue.go. asynq is
-- outside: what its server answers when it starts is given.
use vibls_assignment.Common.{ℕ, String, Bool, true, false, Option, none, some, List, [], ◌∷◌, ◌++◌}
use vibls_assignment.Common.Text.{Bytes}
use vibls_assignment.Queue.Redis.{ParsedUrl, parse_redis_url}
use vibls_assignment.Process.Effects.{queue_server, Effect, closed, processing}
use vibls_assignment.Process.Telemetry.{Level}
use vibls_assignment.Queue.Handler.{TaskHandler}

-- asynq.RedisClientOpt
pub record RedisClientOpt : Type 0 where
  pub addr : Bytes
  pub password : Bytes

abbrev redis_opt : Bytes × Bytes → RedisClientOpt
redis_opt (addr, password) = record { addr = addr; password = password }

pub record QueueClient : Type 0 where
  pub redis : RedisClientOpt

unfoldable pub new_queue_client : (Bytes → Option ParsedUrl) → Bytes → QueueClient
new_queue_client parse redis_url = record { redis = redis_opt (parse_redis_url parse redis_url) }

-- zerolog's level of no level; the zero value of its Logger has the level debug.
pub data LoggerLevel : Type 0 where
  no_level : LoggerLevel
  leveled : Level → LoggerLevel

-- asynq.Config, with the mux.
pub record QueueServer (S : Type 0) : Type 1 where
  pub redis : RedisClientOpt
  pub concurrency : ℕ
  pub shutdown_timeout_seconds : ℕ
  pub default_logger : Bool
  pub handlers : List (String × TaskHandler S)

unfoldable pub new_queue_server :
    {S : Type 0} → (Bytes → Option ParsedUrl) → Bytes → ℕ → LoggerLevel → QueueServer S
new_queue_server parse redis_url concurrency level = record {
  redis = redis_opt (parse_redis_url parse redis_url);
  concurrency = concurrency;
  shutdown_timeout_seconds = 10;
  default_logger = elim level [ no_level ↦ true | leveled l ↦ false ];
  handlers = [];
}

unfoldable pub register_handler :
    {S : Type 0} → String → TaskHandler S → QueueServer S → QueueServer S
register_handler task_type handler s = record s {
  handlers = s.handlers ++ (task_type, handler) ∷ [];
}

-- Start returns the error of the server, or nil when its context is cancelled and the server shut
-- down.
unfoldable pub start_server : Option String → List Effect × Option String
start_server (some e) = ([], some e)
start_server none = (processing ∷ closed queue_server ∷ [], none)
