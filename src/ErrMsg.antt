-- ===== src/ErrMsg.antt =====
-- model/errmsg.hpp and errmsg.cpp: the codes that the model's functions return, and their gRPC status.
use simple_task_queue.Common.{ℕ, ◌≤◌, ◌≡◌, ◌↔◌, List, [], ◌∷◌, arith, ◌==◌, if◌then◌else◌}

abbrev ok_code : ℕ
ok_code = 0

abbrev pub invalid_argument : ℕ
invalid_argument = 1

abbrev pub not_found : ℕ
not_found = 2

abbrev already_exists : ℕ
already_exists = 3

abbrev out_of_range : ℕ
out_of_range = 4

abbrev pub os_error : ℕ
os_error = 5

-- Those values of grpc::StatusCode that the program names.
pub data StatusCode : Type 0 where
  status_ok status_invalid_argument status_not_found status_already_exists : StatusCode
  status_out_of_range status_internal : StatusCode

-- ErrMsg::init fills the table.
table : List (ℕ × StatusCode)
table =
    (ok_code, status_ok)
    ∷ (invalid_argument, status_invalid_argument)
    ∷ (not_found, status_not_found)
    ∷ (already_exists, status_already_exists)
    ∷ (out_of_range, status_out_of_range)
    ∷ (os_error, status_internal)
    ∷ []

-- table[code]: unordered_map's operator[] gives a missing key the value 0, which is OK.
at_key : ℕ → List (ℕ × StatusCode) → StatusCode
at_key code [] = status_ok
at_key code ((c, status) ∷ entries) = if c == code then status else at_key code entries

-- The code of the status; the message goes with it unchanged.
unfoldable pub to_grpc_status : ℕ → StatusCode
unfolding table at_key
to_grpc_status code = at_key code table

-- For every code that the model's functions return, the status is OK exactly if the code is.
to_grpc_status-ok :
    (code : ℕ) → code ≤ os_error → (to_grpc_status code ≡ status_ok) ↔ (code ≡ ok_code)
unfolding to_grpc_status
to_grpc_status-ok code h = (λ e. ground arith, λ e. ground arith)
