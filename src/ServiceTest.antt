-- ===== src/ServiceTest.antt =====
-- code/src/model_service_test.cc: the client that sends one request and prints the answer.
mod Prints
mod Examples
use prob_alimama_2023_a.Base.{ℕ, suc, ◌%◌, List, [], ◌∷◌, ◌++◌, ◌==◌, if◌then◌else◌, Bytes, codes}
use prob_alimama_2023_a.Text.{to_string}
use prob_alimama_2023_a.Request.{SliceRequest, Response, minus_one}
use prob_alimama_2023_a.Testbench.{load_request}

-- grpc::Status: its code, which is 0 for OK, and its message.
pub record RpcStatus : Type 0 where
  pub error_code : ℕ
  pub error_message : Bytes

-- The lines for the slices, from number `i` on.
abbrev pub print_slices : ℕ → List Bytes → List Bytes
print_slices i [] = []
print_slices i (slice ∷ rest) =
    (codes "slice request: " ++ (to_string i ++ (codes " slice_data: " ++ slice)))
    ∷ print_slices (suc i) rest

-- The lines that `main` prints; the call of the service is a parameter.
abbrev pub main : (get : List SliceRequest → Response × RpcStatus) → List Bytes
main get =
    let (resp, status) = get (load_request (λ i. i % 20)) in
    if resp.status == minus_one
    then codes "faild to request....." ∷ []
    else print_slices 0 resp.slice_data
      ++ (if status.error_code == 0
          then []
          else (to_string status.error_code ++ (codes " : " ++ status.error_message)) ∷ [])
