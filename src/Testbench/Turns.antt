-- ===== src/Testbench/Turns.antt =====
-- testbench/testbench.cc: the client of the benchmark from `Init` to `WaitResponse`.
use prob_alimama_2023_a.Base.{
  ℕ, zero, suc, ◌+◌, ◌%◌, ◌^◌, ◌<◌, ◌≡◌, refl, sym, ap, ap₂, ◌∙◌, Bool, true, Option, some, ◌>>=◌,
  List, [], ◌∷◌, ◌++◌, append-nil, append_assoc, length, get_elem?, get_or, Bytes, arith,
}
use prob_alimama_2023_a.Benchmark.Summary.{Status}
use prob_alimama_2023_a.Testbench.{
  RequestItem, ModelServiceGrpcClient, completed, add_stubs, without, init, request, wait_response,
}

get_elem?-get_or :
    (xs : List Bytes) (i : ℕ) → i < length xs → get_elem? xs i ≡ some (get_or xs i [])
get_elem?-get_or [] i h = absurd (omega (arith, h))
get_elem?-get_or (x ∷ xs) zero h = refl
get_elem?-get_or (x ∷ xs) (suc i) h = get_elem?-get_or xs i (omega (arith, h))

add_stubs-connected :
    (new_stub : Bytes → Bool) (services : List Bytes)
    → ((s : Bytes) → new_stub s ≡ true)
    → add_stubs new_stub services ≡ (true, services)
unfolding add_stubs
add_stubs-connected new_stub [] h = refl
add_stubs-connected new_stub (s ∷ services) h =
    rw (add_stubs, h s, add_stubs-connected new_stub services h) refl

same_some : {A : Type 0} {a b : A} → some a ≡ some b → a ≡ b
same_some e = cc e

module _ {Req Obj : Type 0} where
  -- The requests of a client, one after the other.
  abbrev pub request_each :
      List (Req × Obj) → ModelServiceGrpcClient Req Obj → Option (ModelServiceGrpcClient Req Obj)
  request_each [] client = some client
  request_each ((req, obj) ∷ rest) client = do
    (good, next) ← request req obj client
    request_each rest next

  -- Request `i` goes to the service whose turn it is.
  abbrev pub item_of : List Bytes → ℕ → Req × Obj → RequestItem Req Obj
  item_of services i (req, obj) = record {
    service = get_or services (i % length services) [];
    req = req;
    obj = obj;
  }

  abbrev turns : List Bytes → ℕ → List (Req × Obj) → List (RequestItem Req Obj)
  turns services i [] = []
  turns services i (x ∷ xs) = item_of services i x ∷ turns services (i + 1) xs

  length-turns :
      (services : List Bytes) (i : ℕ) (xs : List (Req × Obj))
      → length (turns services i xs) ≡ length xs
  length-turns services i [] = refl
  length-turns services i (x ∷ xs) = ap suc (length-turns services (i + 1) xs)

  get_elem?-turns :
      (services : List Bytes) (i k : ℕ) (xs : List (Req × Obj)) (x : Req × Obj)
      → get_elem? xs k ≡ some x
      → get_elem? (turns services i xs) k ≡ some (item_of services (i + k) x)
  get_elem?-turns services i k [] x e = cc e
  get_elem?-turns services i zero (y ∷ xs) x e =
      ap₂ (λ j z. some (item_of services j z)) (omega arith) (same_some e)
  get_elem?-turns services i (suc k) (y ∷ xs) x e =
      get_elem?-turns services (i + 1) k xs x e
      ∙ ap (λ j. some (item_of services j x)) (omega arith)

  abbrev asked : List Bytes → ℕ → List (RequestItem Req Obj) → ModelServiceGrpcClient Req Obj
  asked services i items = record { stubs = services; req_idx = i; enable = true; items = items }

  request-asked :
      (services : List Bytes) (i : ℕ) (items : List (RequestItem Req Obj)) (req : Req) (obj : Obj)
      → 0 < length services
      → i + 1 < 2 ^ 64
      → request req obj (asked services i items)
        ≡ some (true, asked services (i + 1) (items ++ item_of services i (req, obj) ∷ []))
  unfolding request
  request-asked services i items req obj some_service small =
      rw (request, get_elem?-get_or services (i % length services) (grind arith))
        (ap (λ n. some (true, asked services n (items ++ item_of services i (req, obj) ∷ [])))
          (omega (arith, small)))

  request_each-asked :
      (services : List Bytes) (i : ℕ) (items : List (RequestItem Req Obj)) (xs : List (Req × Obj))
      → 0 < length services
      → i + length xs < 2 ^ 64
      → request_each xs (asked services i items)
        ≡ some (asked services (i + length xs) (items ++ turns services i xs))
  request_each-asked services i items [] some_service small =
      ap₂ (λ n z. some (asked services n z)) (omega arith) (sym (append-nil items))
  request_each-asked services i items ((req, obj) ∷ xs) some_service small =
      rw (request-asked services i items req obj some_service (omega (arith, small))) (
        request_each-asked services (i + 1) (items ++ item_of services i (req, obj) ∷ []) xs
          some_service (omega (arith, small))
        ∙ ap₂ (λ n z. some (asked services n z)) (omega arith)
            (append_assoc items (item_of services i (req, obj) ∷ []) (turns services (i + 1) xs)))

  init-asked :
      (new_stub : Bytes → Bool) (services : List Bytes)
      → ((s : Bytes) → new_stub s ≡ true)
      → init new_stub services ≡ (true, asked services 0 [])
  unfolding init
  init-asked new_stub services h = rw (init, add_stubs-connected new_stub services h) refl

  wait_response-item :
      {Resp : Type 0} (client : ModelServiceGrpcClient Req Obj) (place : ℕ)
      (item : RequestItem Req Obj) (resp : Resp) (outcome : Status)
      → 0 < length client.stubs
      → get_elem? client.items place ≡ some item
      → wait_response (completed true place resp outcome) client
        ≡ some
            (some (resp, outcome, item.obj), record client { items = without place client.items })
  unfolding wait_response
  wait_response-item client place item resp outcome some_service e =
      rw (wait_response, e) (ground (arith, some_service))

  -- After `Init` with a service at least, each with a stub, and fewer than 2 ^ 64 requests one
  -- after the other: each has been taken, in the order of the calls, the k-th by the service whose
  -- turn it is, number k modulo their count; and when gRPC completes the k-th, `WaitResponse`
  -- answers with the response, its status and the object of that request, and only that one is then
  -- gone.
  pub request-wait_response :
      {Resp : Type 0} (new_stub : Bytes → Bool) (services : List Bytes) (xs : List (Req × Obj))
      → ((s : Bytes) → new_stub s ≡ true)
      → 0 < length services
      → length xs < 2 ^ 64
      → (last : ModelServiceGrpcClient Req Obj) × (request_each xs (init new_stub services).1
          ≡ some last)
        × (length last.items ≡ length xs)
        × ((k : ℕ) (req : Req) (obj : Obj) (resp : Resp) (outcome : Status)
            → get_elem? xs k ≡ some (req, obj)
            → (get_elem? last.items k ≡ some (item_of services k (req, obj)))
              × (wait_response (completed true k resp outcome) last
                  ≡ some (some (resp, outcome, obj), record last { items = without k last.items })))
  request-wait_response new_stub services xs connected some_service small = (
    asked services (length xs) (turns services 0 xs),
    ap (λ (z : Bool × ModelServiceGrpcClient Req Obj). request_each xs z.1)
          (init-asked new_stub services connected)
        ∙ request_each-asked services 0 [] xs some_service (omega (arith, small))
        ∙ ap (λ n. some (asked services n (turns services 0 xs))) (omega arith),
    length-turns services 0 xs,
    λ k req obj resp outcome e.
        let at_k =
          get_elem?-turns services 0 k xs (req, obj) e
          ∙ ap (λ j. some (item_of services j (req, obj))) (omega arith) in
        (
          at_k,
          wait_response-item (asked services (length xs) (turns services 0 xs)) k
              (item_of services k (req, obj)) resp outcome some_service at_k,
        ),
  )
