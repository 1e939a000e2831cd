-- ===== src/Client/Connect.antt =====
-- model/dao/grpcconnect.cpp, and grpcInit of controller/global/global.cpp: the connection that the client's queues share.
use simple_task_queue.Common.{to_string, ◌++◌, Str, codes, Option, none, some}
use simple_task_queue.ErrMsg.{os_error}
use simple_task_queue.Exec.{hang, Result, ok, err}
use simple_task_queue.Client.GrpcQueueList.{GrpcQueueList, init_grpc_queue_list}
use simple_task_queue.Client.{Channel, Status, arrived, failed, ℤ}

unfoldable pub taken : {A : Type 0} → Result A → Option A
taken (ok a) = some a
taken (err code) = none
taken hang = none

module _ (C : Channel) where
  -- m_connectToken; the rest of the connection is not read. On a failure of Echo a token of before is
  -- forgotten too, on an earlier failure it stays.
  unfoldable echoed :
      C.Token → Status (Unit {0}) × C.Net → Result (Unit {0}) × Option C.Token × C.Net
  echoed token (arrived done, n) = (ok tt, some token, n)
  echoed token (failed cause, n) = (err os_error, none, n)

  unfoldable with_access :
      C.Token → Option C.Stub → Option C.Token → C.Net → Result (Unit {0}) × Option C.Token × C.Net
  unfolding echoed
  with_access token none old n = (err os_error, old, n)
  with_access token (some stub) old n = echoed token (C.echo stub n)

  unfoldable with_channel :
      Option C.Token → Option C.Token → C.Net → Result (Unit {0}) × Option C.Token × C.Net
  unfolding with_access
  with_channel none old n = (err os_error, old, n)
  with_channel (some token) old n = with_access token (C.new_access_stub token) old n

  unfoldable start_connect :
      Str → ℤ → Option C.Token → C.Net → Result (Unit {0}) × Option C.Token × C.Net
  unfolding with_channel
  start_connect target port old n =
      with_channel (C.create_channel (target ++ (codes ":" ++ to_string port))) old n

  -- Global::grpcInit, on a new connection.
  unfoldable listed_at :
      Result (Unit {0}) × Option C.Token × C.Net → Option (GrpcQueueList C) × C.Net
  listed_at (ok x, token, n) = (taken (init_grpc_queue_list (some token)), n)
  listed_at (err code, token, n) = (none, n)
  listed_at (hang, token, n) = (none, n)

  unfoldable grpc_init : Str → ℤ → C.Net → Option (GrpcQueueList C) × C.Net
  unfolding listed_at start_connect
  grpc_init target port n = listed_at (start_connect target port none n)
