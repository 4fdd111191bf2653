-- ===== src/Manager/Handlers.antt =====
-- code/src/model_manger.cpp: the handlers in use: the end of `loadNewModel`, the two
-- `getModelHander` and the thread that unloads old models. A handler is known by the order in which
-- it was made. A request holds the shared pointer that it was given until its `Get` returns.
mod Loaded
mod Examples
use prob_alimama_2023_a.Base.{
  ℕ, zero, suc, ◌+◌, ◌<◌, ◌≡◌, Bool, true, false, not, Option, none, some, List, [], ◌∷◌, ◌==◌,
  ◌&&◌, if◌then◌else◌, Bytes, equal,
}
use prob_alimama_2023_a.Base.Threads.{update, weigh}

-- A request: without a handler, or with the current one of the time, or with one asked for by name.
pub data Pc : Type 0 where
  idle : Pc
  with_current with_named : ℕ → Pc

pub record ModelManger : Type 0 where
  pub version : ℕ
  pub model_tables : List (Bytes × ℕ)
  pub model_hander_ptr : Option ℕ
  pub next_hander : ℕ  -- the handlers made so far
  pub unloaded : ℕ → Bool
  pub requests : ℕ → Pc

unfoldable pub find_hander : Bytes → List (Bytes × ℕ) → Option ℕ
unfolding equal
find_hander name [] = none
find_hander name ((key, hander) ∷ rest) =
    if equal key name then some hander else find_hander name rest

-- `model_tables[name] = modelHander`
unfoldable pub put_hander : Bytes → ℕ → List (Bytes × ℕ) → List (Bytes × ℕ)
unfolding equal
put_hander name hander [] = (name, hander) ∷ []
put_hander name hander ((key, old) ∷ rest) =
    if equal key name then (key, hander) ∷ rest else (key, old) ∷ put_hander name hander rest

abbrev pub tabled : ℕ → List (Bytes × ℕ) → ℕ
tabled hander [] = 0
tabled hander ((key, h) ∷ rest) = (if h == hander then 1 else 0) + tabled hander rest

abbrev pub is_current : ℕ → Option ℕ → Bool
is_current hander none = false
is_current hander (some h) = h == hander

abbrev pub holds : ℕ → Pc → ℕ
holds hander idle = 0
holds hander (with_current h) = if h == hander then 1 else 0
holds hander (with_named h) = if h == hander then 1 else 0

-- `use_count()` with n requests: the table, `modelHanderPtr`, and the requests.
unfoldable pub use_count : (n : ℕ) → ModelManger → ℕ → ℕ
use_count n s hander =
    tabled hander s.model_tables
    + (if is_current hander s.model_hander_ptr then 1 else 0)
    + weigh (holds hander) n s.requests

-- `loadNewModel` from `version_++` on, for a handler that is new.
unfoldable pub publish : Bytes → ModelManger → ModelManger
publish name s = record s {
  version = suc s.version;
  model_tables = put_hander name s.next_hander s.model_tables;
  model_hander_ptr = some s.next_hander;
  next_hander = suc s.next_hander;
}

-- The loop of the thread that unloads; `uses` is what `use_count` answers while it holds the lock.
unfoldable pub unload_old : (uses : ℕ → ℕ) → Option ℕ → List (Bytes × ℕ) → (ℕ → Bool) → ℕ → Bool
unload_old uses current [] unloaded = unloaded
unload_old uses current ((key, h) ∷ rest) unloaded =
    unload_old uses current rest
      (if uses h == 1 && not (is_current h current) then update unloaded h true else unloaded)

unfoldable pub clear_old : (n : ℕ) → ModelManger → ModelManger
unfolding unload_old
clear_old n s = record s {
  unloaded = unload_old (use_count n s) s.model_hander_ptr s.model_tables s.unloaded;
}

pub data Step (n : ℕ) (s : ModelManger) : ModelManger → Type 0 where
  publishes : (name : Bytes) → Step n s (publish name s)
  -- `getModelHander()`
  takes :
      (i : ℕ) {h : ℕ}
      → i < n
      → s.requests i ≡ idle
      → s.model_hander_ptr ≡ some h
      → Step n s (record s { requests = update s.requests i (with_current h) })
  -- `getModelHander(model_name)`, which waits while the name is not there
  finds :
      (i : ℕ) (name : Bytes) {h : ℕ}
      → i < n
      → s.requests i ≡ idle
      → find_hander name s.model_tables ≡ some h
      → Step n s (record s { requests = update s.requests i (with_named h) })
  returns : (i : ℕ) → i < n → Step n s (record s { requests = update s.requests i idle })
  clears : Step n s (clear_old n s)

pub data Reach (n : ℕ) (s : ModelManger) : ModelManger → Type 0 where
  here : Reach n s s
  later : {t u : ModelManger} → Reach n s t → Step n t u → Reach n s u

unfoldable pub model_manger : ModelManger
model_manger = record {
  version = 0;
  model_tables = [];
  model_hander_ptr = none;
  next_hander = 0;
  unloaded = λ _. false;
  requests = λ _. idle;
}
