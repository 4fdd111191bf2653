-- ===== src/Testbench/Examples.antt =====
-- testbench/testbench.cc: a client of two services.
use prob_alimama_2023_a.Base.{
  ℕ, ◌≡◌, refl, true, some, List, [], ◌∷◌, length, get_elem?, Bytes, codes, arith,
}
use prob_alimama_2023_a.Testbench.{ModelServiceGrpcClient, completed, without, init, wait_response}
use prob_alimama_2023_a.Testbench.Turns.{request_each, item_of, request-wait_response}
use prob_alimama_2023_a.Benchmark.Summary.{Status}

abbrev two_services : List Bytes
two_services = codes "a" ∷ codes "b" ∷ []

abbrev three_requests : List (ℕ × ℕ)
three_requests = (10, 0) ∷ (11, 1) ∷ (12, 2) ∷ []

request-wait_response_example :
    (last : ModelServiceGrpcClient ℕ ℕ) × (request_each three_requests
        (init (λ s. true) two_services).1
      ≡ some last)
    × (length last.items ≡ 3)
    × ((k req obj resp : ℕ) (outcome : Status)
        → get_elem? three_requests k ≡ some (req, obj)
        → (get_elem? last.items k ≡ some (item_of two_services k (req, obj)))
          × (wait_response (completed true k resp outcome) last
              ≡ some (some (resp, outcome, obj), record last { items = without k last.items })))
request-wait_response_example =
    request-wait_response (λ s. true) two_services three_requests (λ s. refl) (omega arith)
      (omega arith)
