-- ===== src/Server.antt =====
-- controller/grpcserver: the handlers of the server. A request or a result is a pointer in the source,
-- which may be null: an Option, and a Boolean that says whether there is one to write to.
pub mod QueueImpl
pub mod QueueListImpl
pub mod Laws
pub mod ListLaws
pub mod RoundTrip
pub mod Examples
pub mod ListExamples
use simple_task_queue.Common.{Option, none, some, Bool, true, false, Str, String, ◌&&◌}
use simple_task_queue.ErrMsg.{
  StatusCode, status_ok, to_grpc_status, status_internal, status_not_found,
}
use simple_task_queue.Exec.{Result, ok, err, hang}

-- OK with what was written to the result, or another status with its message. `stuck` is a call that
-- used up the rounds of a loop over rows.
pub data Reply (A : Type 0) : Type 0 where
  replied : A → Reply A
  refused : StatusCode → String → Reply A
  stuck : Reply A

-- return ErrMsg::toGRPCStatus(code, msg), or OK.
unfoldable pub reply : {A B : Type 0} → String → (A → B) → Result A → Reply B
reply msg f (ok a) = replied (f a)
reply msg f (err code) = refused (to_grpc_status code) msg
reply msg f hang = stuck
