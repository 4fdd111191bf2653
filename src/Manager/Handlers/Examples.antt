-- ===== src/Manager/Handlers/Examples.antt =====
-- code/src/model_manger.cpp: two models, one after the other.
use prob_alimama_2023_a.Base.{ℕ, ◌<◌, ◌≡◌, refl, true, false, some, codes, equal, arith}
use prob_alimama_2023_a.Base.Threads.{update, weigh}
use prob_alimama_2023_a.Manager.Handlers.{
  ModelManger, with_current, with_named, find_hander, put_hander, use_count, publish, publishes,
  takes, Reach, here, later, model_manger,
}
use prob_alimama_2023_a.Manager.Handlers.Loaded.{current_loaded, named_unloaded}

-- A request has the first handler, and a second model has been published.
abbrev switched : ModelManger
switched = publish (codes "model_b") (record (publish (codes "model_a") model_manger) {
  requests = update model_manger.requests 0 (with_current 0);
})

switched-Reach : Reach 2 model_manger switched
unfolding publish model_manger
switched-Reach =
    later (later (later here (publishes (codes "model_a"))) (takes 0 (omega arith) refl refl))
      (publishes (codes "model_b"))

current_loaded_example :
    ((h : ℕ) → switched.model_hander_ptr ≡ some h → switched.unloaded h ≡ false)
    × ((i h : ℕ) → i < 2 → switched.requests i ≡ with_current h → switched.unloaded h ≡ false)
current_loaded_example = current_loaded switched-Reach

-- No request has a handler.
abbrev released : ModelManger
released = publish (codes "model_b") (publish (codes "model_a") model_manger)

named_unloaded_example :
    (t : ModelManger) × Reach 2 released t × (t.requests 1 ≡ with_named 0) × (t.unloaded 0 ≡ true)
unfolding publish model_manger find_hander put_hander equal use_count weigh
named_unloaded_example =
    named_unloaded released (codes "model_a") 1 0 (omega arith) refl refl refl refl
