-- ===== src/Manager/Handlers/Loaded.antt =====
-- code/src/model_manger.cpp: which handlers are loaded.
use prob_alimama_2023_a.Base.{
  ℕ, ◌+◌, ◌≤◌, ◌<◌, ◌≡◌, ◌≢◌, refl, ap, ◌⊎◌, inl, inr, Bool, Bool-cases, true, false, not, Option,
  none, some, List, [], ◌∷◌, arith, ◌==◌, ◌&&◌, if◌then◌else◌, Bytes, equal, equal_iff, ℕ_discrete,
}
use prob_alimama_2023_a.Base.Threads.{update, update_self, weigh, weight-le}
use prob_alimama_2023_a.Manager.Handlers.{
  idle, with_current, with_named, ModelManger, find_hander, put_hander, tabled, is_current, holds,
  use_count, publish, unload_old, clear_old, Step, publishes, takes, finds, returns, clears, Reach,
  here, later, model_manger,
}

find_hander-put_hander :
    (name other : Bytes) (h : ℕ) (table : List (Bytes × ℕ))
    → find_hander other (put_hander name h table)
      ≡ (if equal name other then some h else find_hander other table)
unfolding find_hander put_hander
find_hander-put_hander name other h [] = refl
find_hander-put_hander name other h ((key, old) ∷ rest) = ground (
  arith,
  find_hander-put_hander name other h rest,
  equal_iff key name,
  equal_iff name other,
  equal_iff key other,
)

-- After a new model is published, `getModelHander()` gives its handler, the name gives it too, and
-- every other name gives what it gave before.
publish-find :
    (name other : Bytes) (s : ModelManger)
    → ((publish name s).model_hander_ptr ≡ some s.next_hander)
      × (find_hander other (publish name s).model_tables
          ≡ (if equal name other then some s.next_hander else find_hander other s.model_tables))
unfolding publish
publish-find name other s = (refl, find_hander-put_hander name other s.next_hander s.model_tables)

tabled-put_hander :
    (name : Bytes) (h g : ℕ) (table : List (Bytes × ℕ))
    → (tabled g (put_hander name h table) ≤ tabled g table + (if h == g then 1 else 0))
      × (1 ≤ tabled h (put_hander name h table))
unfolding put_hander
tabled-put_hander name h g [] = ground arith
tabled-put_hander name h g ((key, old) ∷ rest) = ground (arith, tabled-put_hander name h g rest)

-- What is unloaded was so before, or is in the table alone.
unload_old-inv :
    (uses : ℕ → ℕ) (current : Option ℕ) (table : List (Bytes × ℕ)) (unloaded : ℕ → Bool) (h : ℕ)
    → unload_old uses current table unloaded h ≡ true
    → (unloaded h ≡ true) ⊎ ((uses h ≡ 1) × (is_current h current ≡ false) × (1 ≤ tabled h table))
unfolding unload_old
unload_old-inv uses current [] unloaded h e = inl e
unload_old-inv uses current ((key, g) ∷ rest) unloaded h e =
    elim (unload_old-inv uses current rest
      (if uses g == 1 && not (is_current g current) then update unloaded g true else unloaded) h
      e) [
        | inr (u, c, t) ↦ inr (u, c, omega (arith, t))
        | inl old ↦ elim (ℕ_discrete h g) [
          | no other ↦ inl (ground (arith, old, other))
          | yes same ↦ elim (Bool-cases (uses g == 1 && not (is_current g current))) [
            | inr c ↦ inl (ground (arith, old, c))
            | inl c ↦ inr (
              ground (arith, c, ap uses same),
              ground (arith, c, ap (λ z. is_current z current) same),
              ground (arith, same),
            )
          ]
        ]
      ]

record Inv (n : ℕ) (s : ModelManger) : Type 0 where
  current : (h : ℕ) → s.model_hander_ptr ≡ some h → (h < s.next_hander) × (s.unloaded h ≡ false)
  new : (h : ℕ) → s.next_hander ≤ h → (s.unloaded h ≡ false) × (tabled h s.model_tables ≡ 0)
  held : (i h : ℕ) → i < n → s.requests i ≡ with_current h → s.unloaded h ≡ false

not_alone :
    (n : ℕ) (s : ModelManger) (h : ℕ)
    → is_current h s.model_hander_ptr ≡ false
    → (is_current h s.model_hander_ptr ≡ true)
      ⊎ (tabled h s.model_tables ≡ 0)
      ⊎ (1 ≤ weigh (holds h) n s.requests)
    → 1 ≤ tabled h s.model_tables
    → use_count n s h ≢ 1
unfolding use_count
not_alone n s h c (inl a) t u = cc (a, c)
not_alone n s h c (inr (inl z)) t u = omega (arith, z, t)
not_alone n s h c (inr (inr w)) t u = ground (arith, c, w, t, u)

-- A handler that a request or `modelHanderPtr` has is not unloaded now.
clear_old-kept :
    (n : ℕ) (s : ModelManger) (h : ℕ)
    → s.unloaded h ≡ false
    → (is_current h s.model_hander_ptr ≡ true)
      ⊎ (tabled h s.model_tables ≡ 0)
      ⊎ (1 ≤ weigh (holds h) n s.requests)
    → (clear_old n s).unloaded h ≡ false
unfolding clear_old use_count
clear_old-kept n s h loaded used = elim (Bool-cases ((clear_old n s).unloaded h)) [
  | inr e ↦ e
  | inl e ↦ elim (unload_old-inv (use_count n s) s.model_hander_ptr s.model_tables s.unloaded h e) [
    | inl old ↦ cc (old, loaded)
    | inr (u, c, t) ↦ absurd (not_alone n s h c used t u)
  ]
]

current-is : (h : ℕ) (o : Option ℕ) → o ≡ some h → is_current h o ≡ true
current-is h none e = cc e
current-is h (some g) e = ground (arith, e)

Step-Inv : {n : ℕ} {s t : ModelManger} → Step n s t → Inv n s → Inv n t
unfolding publish clear_old
Step-Inv {n} {s} (publishes name) v = record {
  current = λ h e. ground (arith, e, v.new s.next_hander);
  new = λ h le. ground (arith, le, v.new h, tabled-put_hander name s.next_hander h s.model_tables);
  held = v.held;
}
Step-Inv {n} {s} (takes i {h} lt e c) v = record {
  current = v.current;
  new = v.new;
  held = λ j g jl f. ground (arith, f, v.current h c, v.held j g jl);
}
Step-Inv {n} {s} (finds i name {h} lt e f) v = record {
  current = v.current;
  new = v.new;
  held = λ j g jl k. ground (arith, k, v.held j g jl);
}
Step-Inv {n} {s} (returns i lt) v = record {
  current = v.current;
  new = v.new;
  held = λ j g jl k. ground (arith, k, v.held j g jl);
}
Step-Inv {n} {s} clears v = record {
  current = λ h e. (
    (v.current h e).0,
    clear_old-kept n s h (v.current h e).1 (inl (current-is h s.model_hander_ptr e)),
  );
  new = λ h le. (clear_old-kept n s h (v.new h le).0 (inr (inl (v.new h le).1)), (v.new h le).1);
  held = λ i h lt e.
      clear_old-kept n s h (v.held i h lt e)
        (inr (inr (ground (arith, e, weight-le (holds h) n s.requests i lt))));
}

Reach-Inv : {n : ℕ} {s : ModelManger} → Reach n model_manger s → Inv n s
unfolding model_manger
Reach-Inv here = record {
  current = λ h e. cc e;
  new = λ h le. (refl, refl);
  held = λ i h lt e. cc e;
}
Reach-Inv (later r step) = Step-Inv step (Reach-Inv r)

-- In any interleaving from the start, with n requests: the current handler is loaded, and so is,
-- until the request returns, each handler that a request got as the current one, whatever has been
-- published and unloaded since.
pub current_loaded :
    {n : ℕ} {s : ModelManger}
    → Reach n model_manger s
    → ((h : ℕ) → s.model_hander_ptr ≡ some h → s.unloaded h ≡ false)
      × ((i h : ℕ) → i < n → s.requests i ≡ with_current h → s.unloaded h ≡ false)
current_loaded r = let v = Reach-Inv r in ((λ h e. (v.current h e).1), v.held)

unload_old-keeps :
    (uses : ℕ → ℕ) (current : Option ℕ) (table : List (Bytes × ℕ)) (unloaded : ℕ → Bool) (h : ℕ)
    → unloaded h ≡ true
    → unload_old uses current table unloaded h ≡ true
unfolding unload_old
unload_old-keeps uses current [] unloaded h e = e
unload_old-keeps uses current ((key, g) ∷ rest) unloaded h e =
    unload_old-keeps uses current rest
      (if uses g == 1 && not (is_current g current) then update unloaded g true else unloaded) h
      (ground (arith, e))

unload_old-alone :
    (uses : ℕ → ℕ) (current : Option ℕ) (table : List (Bytes × ℕ)) (unloaded : ℕ → Bool)
    (name : Bytes) (h : ℕ)
    → find_hander name table ≡ some h
    → uses h ≡ 1
    → is_current h current ≡ false
    → unload_old uses current table unloaded h ≡ true
unfolding unload_old find_hander
unload_old-alone uses current [] unloaded name h f u c = cc f
unload_old-alone uses current ((key, g) ∷ rest) unloaded name h f u c =
    elim (Bool-cases (equal key name)) [
      | inl e ↦
          unload_old-keeps uses current rest
            (if uses g == 1 && not (is_current g current) then update unloaded g true else unloaded)
            h (ground (arith, e, f, u, c))
      | inr e ↦
          unload_old-alone uses current rest
            (if uses g == 1 && not (is_current g current) then update unloaded g true else unloaded)
            name h (ground (arith, e, f)) u c
    ]

-- A handler that is in the table alone, under a name that another node still asks for: the thread
-- that unloads and then an idle request for that name leave the request with an unloaded handler.
pub named_unloaded :
    {n : ℕ} (s : ModelManger) (name : Bytes) (i h : ℕ)
    → i < n
    → s.requests i ≡ idle
    → find_hander name s.model_tables ≡ some h
    → use_count n s h ≡ 1
    → is_current h s.model_hander_ptr ≡ false
    → (t : ModelManger) × Reach n s t × (t.requests i ≡ with_named h) × (t.unloaded h ≡ true)
unfolding clear_old
named_unloaded {n} s name i h lt free f u c = (
  record (clear_old n s) { requests = update s.requests i (with_named h) },
  later (later here clears) (finds i name lt free f),
  update_self s.requests i (with_named h),
  unload_old-alone (use_count n s) s.model_hander_ptr s.model_tables s.unloaded name h f u c,
)
