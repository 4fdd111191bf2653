-- ===== src/Service/Examples.antt =====
-- code/src/model_service.cpp: `Get` at a request for three slices on two nodes.
use prob_alimama_2023_a.Base.{
  ℕ_discrete, ◌≡◌, refl, ◌⊎◌, true, false, Option, none, some, [], map, arith, Bytes, codes, take,
  drop, ◌==◌, if◌then◌else◌,
}
use prob_alimama_2023_a.Samples.{memory_reader, two_nodes, two_slices, block, length-block}
use prob_alimama_2023_a.Shard.{get_node_for_slice}
use prob_alimama_2023_a.Request.{SliceRequest, empty_task, minus_one, wait, request_result}
use prob_alimama_2023_a.Client.{push, slice_requests}
use prob_alimama_2023_a.Internal.{respond}
use prob_alimama_2023_a.Handler.{reader_at}
use prob_alimama_2023_a.Service.{unsent, Flight, start_get, Reach, here}
use prob_alimama_2023_a.Service.Plan.{Servable}
use prob_alimama_2023_a.Service.Answer.{get-answer}
use prob_alimama_2023_a.Service.Progress.{start_get_total, get_returns}

abbrev wanted : SliceRequest → Bytes
wanted sr = take sr.data_len (
    drop sr.data_start
      (if sr.slice_partition == 0 then codes "weights of slice zero" else codes "and of slice one"))

two_slices-Servable :
    Servable memory_reader 0 2 two_nodes wanted (get_node_for_slice 1 2) two_slices
unfolding reader_at get_node_for_slice
two_slices-Servable = record {
  good = omega arith;
  fits = omega arith;
  had = (
    (0, refl, omega arith, refl),
    ((1, refl, omega arith, refl), ((0, refl, omega arith, refl), tt)),
  );
}

start_get_total_example :
    (f : Flight) × (start_get (get_node_for_slice 1 2) 0 2 (codes "model_a") block 7 two_slices
      ≡ some f)
start_get_total_example =
    start_get_total memory_reader 0 2 two_nodes wanted (get_node_for_slice 1 2) two_slices
      two_slices-Servable (codes "model_a") block 7 (omega arith) length-block

-- The state after the dispatch: a copy of `start_get` at the request.
begun : Flight
unfolding start_get get_node_for_slice push slice_requests ℕ_discrete request_result
begun = from (start_get (get_node_for_slice 1 2) 0 2 (codes "model_a") block 7 two_slices)
  where
    from : Option Flight → Flight
    from none = record {
      result = record {
        req_no = 0;
        req_num = 0;
        finish_num = 0;
        faild = true;
        finish = false;
        size = 0;
        bytes = [];
      };
      pc = λ k. unsent empty_task;
    }
    from (some f) = f

start_get-begun :
    start_get (get_node_for_slice 1 2) 0 2 (codes "model_a") block 7 two_slices ≡ some begun
unfolding begun
start_get-begun = refl

begun_calm : begun.result.faild ≡ false
unfolding begun
begun_calm = refl

get_returns_example :
    (h : Flight) × Reach memory_reader 0 2 two_nodes begun h
    × (wait h.result ≡ some h.result)
    × (respond two_slices h.result
        ≡ some (record { status = 0; slice_data = map wanted two_slices }))
get_returns_example =
    get_returns memory_reader 0 2 two_nodes wanted (get_node_for_slice 1 2) two_slices
      two_slices-Servable (codes "model_a") block 7 (omega arith) length-block start_get-begun here
      begun_calm

abbrev Returned : Type 0
Returned =
    (h : Flight) × Reach memory_reader 0 2 two_nodes begun h
    × (wait h.result ≡ some h.result)
    × (respond two_slices h.result
        ≡ some (record { status = 0; slice_data = map wanted two_slices }))

returned : Returned
returned =
    get_returns memory_reader 0 2 two_nodes wanted (get_node_for_slice 1 2) two_slices
      two_slices-Servable (codes "model_a") block 7 (omega arith) length-block start_get-begun here
      begun_calm

get-answer_example :
    (returned.0.result.faild ≡ false)
      × (respond two_slices returned.0.result
          ≡ some (record { status = 0; slice_data = map wanted two_slices }))
    ⊎ (returned.0.result.faild ≡ true)
      × (respond two_slices returned.0.result
          ≡ some (record { status = minus_one; slice_data = [] }))
get-answer_example =
    get-answer memory_reader 0 2 two_nodes wanted (get_node_for_slice 1 2) two_slices
      two_slices-Servable (codes "model_a") block 7 (omega arith) length-block start_get-begun
      returned.1 returned.2
