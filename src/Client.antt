-- ===== src/Client.antt =====
-- The client's side of gRPC: what model/dao/grpcqueue.cpp, grpcqueuelist.cpp and grpcconnect.cpp use of
-- the library and of the generated stubs.
pub mod Connect
pub mod GrpcQueue
pub mod GrpcQueueList
pub mod Carries
pub mod Remote
pub mod Lists
pub mod RoundTrip
pub mod Examples
use simple_task_queue.Common.{ℤ, Str, Bool, Option, none, some, List}
use simple_task_queue.ErrMsg.{StatusCode, os_error}
use simple_task_queue.Exec.{Result, ok, err, hang}
use simple_task_queue.Server.QueueImpl.{QueueReq, TaskDetailsReq, AddTaskReq, TaskDetailsRes}
use simple_task_queue.Server.QueueListImpl.{RenameQueueReq}

-- The calls with one response, of protos/queue.proto and protos/queuelist.proto.
pub data Rpc : Type 0 where
  pending_details_rpc finished_details_rpc clear_pending_rpc clear_finished_rpc : Rpc
  current_task_rpc add_task_rpc remove_task_rpc is_running_rpc start_rpc stop_rpc : Rpc
  create_rpc rename_rpc delete_rpc get_queue_rpc : Rpc

abbrev pub Request : Rpc → Type 0
Request pending_details_rpc = TaskDetailsReq
Request finished_details_rpc = TaskDetailsReq
Request add_task_rpc = AddTaskReq
Request remove_task_rpc = TaskDetailsReq
Request rename_rpc = RenameQueueReq
Request _ = QueueReq

abbrev pub Response : Rpc → Type 0
Response pending_details_rpc = TaskDetailsRes
Response finished_details_rpc = TaskDetailsRes
Response current_task_rpc = TaskDetailsRes
Response add_task_rpc = ℤ
Response is_running_rpc = Bool
Response _ = Unit {0}

-- The calls whose response is a stream.
pub data Feed : Type 0 where
  list_pending_feed list_finished_feed read_current_output_feed list_feed : Feed

abbrev pub FeedRequest : Feed → Type 0
FeedRequest list_feed = Unit {0}
FeedRequest _ = QueueReq

abbrev pub Item : Feed → Type 0
Item list_pending_feed = ℤ
Item list_finished_feed = ℤ
Item read_current_output_feed = Str
Item list_feed = Str

-- A grpc::Status that is not OK: the server's, or one that gRPC made up, such as DEADLINE_EXCEEDED.
pub data Cause : Type 0 where
  from_server : StatusCode → Cause
  from_channel : Cause

-- A status, with the response where it is OK.
pub data Status (A : Type 0) : Type 0 where
  arrived : A → Status A
  failed : Cause → Status A

-- A streaming call: no reader, or what Read gave until it was false, and what Finish says.
pub data Reading (A : Type 0) : Type 0 where
  no_reader : Reading A
  read_all : List A → Status (Unit {0}) → Reading A

-- gRPC, as the client uses it. `Net` is all that lies behind a channel. CreateChannel and NewStub give
-- `none` where they give a null pointer or throw. Each call has a context with a deadline, so it ends.
pub record Channel : Type 1 where
  pub Net : Type 0
  pub Token : Type 0
  pub Stub : Type 0
  pub create_channel : Str → Option Token
  pub new_access_stub : Token → Option Stub
  pub new_queue_stub : Token → Option Stub
  pub new_list_stub : Token → Option Stub
  pub echo : Stub → Net → Status (Unit {0}) × Net
  pub call : (m : Rpc) → Stub → Request m → Net → Status (Response m) × Net
  pub stream : (m : Feed) → Stub → FeedRequest m → Net → Reading (Item m) × Net

-- `if (status.ok()) { ...; return ErrCode_OK; }`, and ErrCode_OS_ERROR for any other status.
unfoldable pub checked : {N A B : Type 0} → (A → B) → Status A × N → Result B × N
checked f (arrived a, n) = (ok (f a), n)
checked f (failed cause, n) = (err os_error, n)
