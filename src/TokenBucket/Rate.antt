-- ===== src/TokenBucket/Rate.antt =====
-- testbench/token_bucket.h: how often a token is granted.
use native.Mathlib.Nat.{div-le_self}
use prob_alimama_2023_a.Base.{
  Bool-cases, inl, inr, true, false, ◌==◌, ℕ, ◌+◌, ◌*◌, ◌/◌, ◌%◌, ◌^◌, ◌≤◌, ◌<◌, ◌≡◌, refl, sym, ap,
  ◌∙◌, ◌-◌, max, subst, >>=-eq-some, some, List, [], ◌∷◌, leb, arith, if◌then◌else◌,
}
use prob_alimama_2023_a.TokenBucket.{TokenBucket, token_bucket, time_after, time_before, consume}

time_after-fits :
    (time duration : ℕ)
    → duration < 2 ^ 63
    → time + duration < 2 ^ 63
    → time_after time duration ≡ some (time + duration)
unfolding time_after
time_after-fits time duration h k = ground (arith, h, k)

time_before-le :
    (time duration : ℕ)
    → duration < 2 ^ 63
    → (t : ℕ) × (time_before time duration ≡ some t) × (t ≤ time)
unfolding time_before
time_before-le time duration h = (time - duration, ground (arith, h), omega arith)

granted-eq :
    (bucket : TokenBucket) (needed burst now late : ℕ)
    → burst ≤ now
    → ◌≡◌ {A = TokenBucket × ℕ}
        (if leb (max needed burst) now
          then (record bucket { last_consume_time = now }, now)
          else (record bucket { last_consume_time = max needed burst }, max needed burst + late))
        (
          record bucket { last_consume_time = max now needed },
          if leb needed now then now else needed + late,
        )
granted-eq bucket needed burst now late h = elim (Bool-cases (leb needed now)) [
  | inl e ↦
      let both : leb (max needed burst) now ≡ true = ground (arith, e, h) in
      let last : max now needed ≡ now = ground (arith, e) in rw (e, both, last) refl
  | inr e ↦
      let both : leb (max needed burst) now ≡ false = ground (arith, e, h) in
      let last : max now needed ≡ needed = ground (arith, e) in
      let first : max needed burst ≡ needed = ground (arith, e, h) in rw (e, both, last, first) refl
]

-- Where the burst and the time of the tokens, with the last grant, are durations and a time that an
-- int64_t can hold: a call is granted at once, and returns at once, if the time of its tokens has
-- passed since the last grant, and else is granted when it has, and returns then or later; the size
-- of the burst has no effect.
pub consume-max :
    (bucket : TokenBucket) (tokens now late needed : ℕ)
    → bucket.burst_time < 2 ^ 63
    → tokens * bucket.time_per_token < 2 ^ 63
    → bucket.last_consume_time + tokens * bucket.time_per_token ≡ needed
    → needed < 2 ^ 63
    → consume bucket tokens now late
      ≡ some (
        record bucket { last_consume_time = max now needed },
        if leb needed now then now else needed + late,
      )
unfolding consume
consume-max bucket tokens now late needed small short e fits =
    let (burst, b, le) = time_before-le now bucket.burst_time small in
    let whole : tokens * bucket.time_per_token % 2 ^ 64 ≡ tokens * bucket.time_per_token =
      omega (arith, short) in
    let after : time_after bucket.last_consume_time (tokens * bucket.time_per_token) ≡ some needed =
      subst (λ z. time_after bucket.last_consume_time (tokens * bucket.time_per_token) ≡ some z) e
        (time_after-fits bucket.last_consume_time (tokens * bucket.time_per_token) short
          (omega (arith, e, fits))) in
    rw (consume, whole, after, b) (ap some (granted-eq bucket needed burst now late le))

-- Calls for one token each, one after the other: when each returns.
pub data Calls : TokenBucket → List ℕ → Type 0 where
  no_calls : {bucket : TokenBucket} → Calls bucket []
  calls :
      {bucket next : TokenBucket} {returned : ℕ} {later : List ℕ} (now late : ℕ)
      → consume bucket 1 now late ≡ some (next, returned)
      → Calls next later
      → Calls bucket (returned ∷ later)

-- The time of the tokens of the calls that have returned by the time hi.
abbrev pub spent : (gap hi : ℕ) → List ℕ → ℕ
spent gap hi [] = 0
spent gap hi (t ∷ ts) = if leb t hi then gap + spent gap hi ts else spent gap hi ts

time_after-some :
    (time duration t : ℕ)
    → duration < 2 ^ 63
    → time_after time duration ≡ some t
    → t ≡ time + duration
unfolding time_after
time_after-some time duration t h e = ground (arith, h, e)

-- What a call leaves: the same gap, a grant that is a gap or more after the last, and a return that
-- is not before the grant.
granted-le :
    (bucket next : TokenBucket) (needed burst now late returned : ℕ)
    → ◌≡◌ {A = TokenBucket × ℕ}
        (if leb (max needed burst) now
          then (record bucket { last_consume_time = now }, now)
          else (record bucket { last_consume_time = max needed burst }, max needed burst + late))
        (next, returned)
    → (next.time_per_token ≡ bucket.time_per_token)
      × (needed ≤ next.last_consume_time)
      × (next.last_consume_time ≤ returned)
granted-le bucket next needed burst now late returned e =
    elim (Bool-cases (leb (max needed burst) now)) [
      | inl b ↦
          let f = rw b at e in
          let past : max needed burst ≤ now = ground (arith, b) in
          (
            sym (ap (λ (z : TokenBucket × ℕ). z.0.time_per_token) f),
            omega (arith, past, ap (λ (z : TokenBucket × ℕ). z.0.last_consume_time) f),
            omega (
              arith,
              ap (λ (z : TokenBucket × ℕ). z.0.last_consume_time) f,
              ap (λ (z : TokenBucket × ℕ). z.1) f,
            ),
          )
      | inr b ↦
          let f = rw b at e in
          (
            sym (ap (λ (z : TokenBucket × ℕ). z.0.time_per_token) f),
            omega (arith, ap (λ (z : TokenBucket × ℕ). z.0.last_consume_time) f),
            omega (
              arith,
              ap (λ (z : TokenBucket × ℕ). z.0.last_consume_time) f,
              ap (λ (z : TokenBucket × ℕ). z.1) f,
            ),
          )
    ]

same_some : {A : Type 0} {a b : A} → some a ≡ some b → a ≡ b
same_some e = cc e

consume-le :
    (bucket next : TokenBucket) (now late returned : ℕ)
    → bucket.time_per_token < 2 ^ 63
    → consume bucket 1 now late ≡ some (next, returned)
    → (next.time_per_token ≡ bucket.time_per_token)
      × (bucket.last_consume_time + bucket.time_per_token ≤ next.last_consume_time)
      × (next.last_consume_time ≤ returned)
unfolding consume
consume-le bucket next now late returned h e =
    let gap = 1 * bucket.time_per_token % 2 ^ 64 in
    let whole : gap ≡ bucket.time_per_token = omega (arith, h) in
    let (needed, n, e1) = >>=-eq-some (time_after bucket.last_consume_time gap) _ e in
    let (burst, b, e2) = >>=-eq-some (time_before now bucket.burst_time) _ e1 in
    let (same, above, back) =
      granted-le bucket next needed burst now late returned (same_some e2) in
    let due = time_after-some bucket.last_consume_time gap needed (omega (arith, whole, h)) n in
    (same, omega (arith, due, above, whole), back)

Calls-spent :
    {bucket : TokenBucket} {returns : List ℕ} (gap hi : ℕ)
    → bucket.time_per_token ≡ gap
    → gap < 2 ^ 63
    → Calls bucket returns
    → bucket.last_consume_time + spent gap hi returns ≤ max hi bucket.last_consume_time
Calls-spent gap hi same h no_calls = omega arith
Calls-spent {bucket} gap hi same h
      (calls {next = next} {returned = t} {later = ts} now late e more) =
    let (kept, above, back) = consume-le bucket next now late t (omega (arith, same, h)) e in
    let rest = Calls-spent gap hi (kept ∙ same) h more in ground (arith, same, above, back, rest)

made :
    (rate burst_size start : ℕ) (bucket : TokenBucket)
    → (rate == 0) ≡ false
    → token_bucket rate burst_size start ≡ some bucket
    → record {
      time_per_token = 1000000000 / rate;
      burst_time = burst_size * (1000000000 / rate) % 2 ^ 64;
      last_consume_time = start;
    }
      ≡ bucket
unfolding token_bucket
made rate burst_size start bucket z e = cc (z, e)

token_bucket-time_per_token :
    (rate burst_size start : ℕ) (bucket : TokenBucket)
    → token_bucket rate burst_size start ≡ some bucket
    → bucket.time_per_token < 2 ^ 63
unfolding token_bucket
token_bucket-time_per_token rate burst_size start bucket e = elim (Bool-cases (rate == 0)) [
  | inl z ↦ cc (z, e)
  | inr z ↦
      subst (λ b. b.time_per_token < 2 ^ 63) (made rate burst_size start bucket z e)
        (omega (arith, div-le_self 1000000000 rate))
]

token_bucket-last :
    (rate burst_size start : ℕ) (bucket : TokenBucket)
    → token_bucket rate burst_size start ≡ some bucket
    → bucket.last_consume_time ≡ start
unfolding token_bucket
token_bucket-last rate burst_size start bucket e = elim (Bool-cases (rate == 0)) [
  | inl z ↦ cc (z, e)
  | inr z ↦
      sym (ap (λ (b : TokenBucket). b.last_consume_time) (made rate burst_size start bucket z e))
]

-- For a bucket made for a rate above 0 and one-token calls at any times: the tokens of the calls
-- that have returned by a time, not before the bucket was made, at `time_per_token` each, take no
-- more than the time since the bucket was made.
pub Calls-spent_le :
    (rate burst_size start : ℕ) (bucket : TokenBucket) (returns : List ℕ) (hi : ℕ)
    → token_bucket rate burst_size start ≡ some bucket
    → Calls bucket returns
    → start ≤ hi
    → start + spent bucket.time_per_token hi returns ≤ hi
Calls-spent_le rate burst_size start bucket returns hi e run h =
    let small = token_bucket-time_per_token rate burst_size start bucket e in
    let first = token_bucket-last rate burst_size start bucket e in
    omega (arith, first, h, Calls-spent bucket.time_per_token hi refl small run)
