-- ===== src/Governor/Bucket.antt =====
-- TokenBucketRateLimiter (loop_engine/governor.py). Python's floats are a parameter, with the
-- comparisons and the arithmetic that the code uses; what the theorems need of them is `FloatLaws`,
-- which rounding, infinities and NaN respect. The lock makes each call a step of its own.
use shadows.Prelude.{
  if◌then◌else◌, Bool-cases, ◌≡◌, refl, subst, inl, inr, Bool, true, false, not, List, [], ◌∷◌,
}
use shadows.Outcome.{value_error, Result, ok, ◌>>◌, guard, ok_injective, guard-ok}

pub record Floats : Type 1 where
  pub Float : Type 0
  pub zero_float : Float
  pub infinity : Float
  -- `x < y` and `x <= y`
  pub lt : Float → Float → Bool
  pub le : Float → Float → Bool
  -- `x + y`, `x - y` and `x * y`, rounded
  pub add : Float → Float → Float
  pub sub : Float → Float → Float
  pub mul : Float → Float → Float

module _ (f : Floats) where
  pub record FloatLaws : Type 0 where
    pub lt-le : (a b : f.Float) → f.lt a b ≡ true → f.le a b ≡ true
    pub le_trans : (a b c : f.Float) → f.le a b ≡ true → f.le b c ≡ true → f.le a c ≡ true
    -- What is below something is not NaN.
    pub le_self : (a b : f.Float) → f.le a b ≡ true → f.le a a ≡ true
    pub above_zero :
        (a b : f.Float) → f.le a f.zero_float ≡ false → f.le a b ≡ true → f.lt f.zero_float a ≡ true
    pub add_nonneg :
        (a b : f.Float)
        → f.le f.zero_float a ≡ true
        → f.le f.zero_float b ≡ true
        → f.le f.zero_float (f.add a b) ≡ true
    pub mul_nonneg :
        (a b : f.Float)
        → f.lt f.zero_float a ≡ true
        → f.lt f.zero_float b ≡ true
        → f.le f.zero_float (f.mul a b) ≡ true
    -- Rounding is monotone, and only infinities make a difference NaN.
    pub sub_between :
        (a b c : f.Float)
        → f.lt f.zero_float b ≡ true
        → f.le b a ≡ true
        → f.le a c ≡ true
        → f.lt c f.infinity ≡ true
        → (f.le f.zero_float (f.sub a b) ≡ true) × (f.le (f.sub a b) c ≡ true)

  pub record TokenBucket : Type 0 where
    pub capacity : f.Float
    pub refill_rate : f.Float
    pub tokens : f.Float
    pub last_refill_time : f.Float

  -- `__init__`, at the time `now`
  unfoldable pub new_token_bucket :
      (capacity refill_rate : f.Float) → (now : f.Float) → Result TokenBucket
  new_token_bucket capacity refill_rate now = do
    guard (not (f.le capacity f.zero_float)) value_error
    guard (not (f.le refill_rate f.zero_float)) value_error
    ok (record {
      capacity = capacity;
      refill_rate = refill_rate;
      tokens = capacity;
      last_refill_time = now;
    })

  -- `min(x, y)` keeps the first unless the second is below it.
  abbrev pub min_float : f.Float → f.Float → f.Float
  min_float x y = if f.lt y x then y else x

  unfoldable pub refill : f.Float → TokenBucket → TokenBucket
  refill now b =
      let elapsed = f.sub now b.last_refill_time in
      if f.lt f.zero_float elapsed
      then record b {
        tokens = min_float b.capacity (f.add b.tokens (f.mul elapsed b.refill_rate));
        last_refill_time = now;
      }
      else b

  unfoldable pub allow : f.Float → f.Float → TokenBucket → Bool × TokenBucket
  allow now amount b =
      if f.le amount f.zero_float
      then (true, b)
      else let b' = refill now b in
        if f.le amount b'.tokens
        then (true, record b' { tokens = f.sub b'.tokens amount })
        else (false, b')

  unfoldable pub get_available_tokens : f.Float → TokenBucket → f.Float × TokenBucket
  get_available_tokens now b = let b' = refill now b in (b'.tokens, b')

  pub data BucketCall : Type 0 where
    ask : f.Float → f.Float → BucketCall
    look : f.Float → BucketCall

  unfoldable pub after_bucket_calls : List BucketCall → TokenBucket → TokenBucket
  after_bucket_calls [] b = b
  after_bucket_calls (ask now amount ∷ calls) b = after_bucket_calls calls (allow now amount b).1
  after_bucket_calls (look now ∷ calls) b = after_bucket_calls calls (get_available_tokens now b).1

  -- The bucket has this capacity, which is finite, fills up, and holds no less than nothing and no
  -- more than its capacity.
  pub record IsWithin (size : f.Float) (b : TokenBucket) : Type 0 where
    pub of_size : b.capacity ≡ size
    pub finite : f.lt b.capacity f.infinity ≡ true
    pub has_room : f.lt f.zero_float b.capacity ≡ true
    pub fills : f.lt f.zero_float b.refill_rate ≡ true
    pub not_negative : f.le f.zero_float b.tokens ≡ true
    pub not_over : f.le b.tokens b.capacity ≡ true

  module _ (laws : FloatLaws) (size : f.Float) where
    capped :
        (x c : f.Float)
        → f.le f.zero_float x ≡ true
        → f.lt f.zero_float c ≡ true
        → f.lt c f.infinity ≡ true
        → (f.le f.zero_float (min_float c x) ≡ true) × (f.le (min_float c x) c ≡ true)
    capped x c h room finite = elim (Bool-cases (f.lt x c)) [
      | inl less ↦ rw less (h, laws.lt-le x c less)
      | inr full ↦ rw full (
        laws.lt-le f.zero_float c room,
        laws.le_self c f.infinity (laws.lt-le c f.infinity finite),
      )
    ]

    refill-IsWithin :
        (now : f.Float) (b : TokenBucket) → IsWithin size b → IsWithin size (refill now b)
    unfolding refill
    refill-IsWithin now b h =
        let elapsed = f.sub now b.last_refill_time in
        elim (Bool-cases (f.lt f.zero_float elapsed)) [
          | inl later ↦
              let (low, high) =
                capped (f.add b.tokens (f.mul elapsed b.refill_rate)) b.capacity
                  (laws.add_nonneg b.tokens (f.mul elapsed b.refill_rate) h.not_negative
                    (laws.mul_nonneg elapsed b.refill_rate later h.fills))
                  h.has_room h.finite in
              rw later (record {
                of_size = h.of_size;
                finite = h.finite;
                has_room = h.has_room;
                fills = h.fills;
                not_negative = low;
                not_over = high;
              })
          | inr same ↦ rw same h
        ]

    allow-IsWithin :
        (now amount : f.Float) (b : TokenBucket)
        → IsWithin size b
        → IsWithin size (allow now amount b).1
    unfolding allow
    allow-IsWithin now amount b h = elim (Bool-cases (f.le amount f.zero_float)) [
      | inl nothing ↦ rw nothing h
      | inr something ↦
          let r = refill-IsWithin now b h in
          elim (Bool-cases (f.le amount (refill now b).tokens)) [
            | inl enough ↦
                let (low, high) =
                  laws.sub_between (refill now b).tokens amount (refill now b).capacity
                    (laws.above_zero amount (refill now b).tokens something enough) enough
                    r.not_over r.finite in
                rw (something, enough)
                  (record {
                    of_size = r.of_size;
                    finite = r.finite;
                    has_room = r.has_room;
                    fills = r.fills;
                    not_negative = low;
                    not_over = high;
                  })
            | inr short ↦ rw (something, short) r
          ]
    ]

    after_bucket_calls-IsWithin :
        (calls : List BucketCall) (b : TokenBucket)
        → IsWithin size b
        → IsWithin size (after_bucket_calls calls b)
    unfolding after_bucket_calls get_available_tokens
    after_bucket_calls-IsWithin [] b h = h
    after_bucket_calls-IsWithin (ask now amount ∷ calls) b h =
        after_bucket_calls-IsWithin calls (allow now amount b).1 (allow-IsWithin now amount b h)
    after_bucket_calls-IsWithin (look now ∷ calls) b h =
        after_bucket_calls-IsWithin calls (refill now b) (refill-IsWithin now b h)

    refused :
        (now amount : f.Float) (b : TokenBucket)
        → IsWithin size b
        → f.le amount f.zero_float ≡ false
        → f.le amount size ≡ false
        → (allow now amount b).0 ≡ false
    unfolding allow
    refused now amount b h something over =
        let r = refill-IsWithin now b h in
        elim (Bool-cases (f.le amount (refill now b).tokens)) [
          | inl enough ↦
              let fits =
                laws.le_trans amount (refill now b).tokens (refill now b).capacity enough
                  r.not_over in
              cc (fits, r.of_size, over)
          | inr short ↦ rw (something, short) refl
        ]

    created-IsWithin :
        (refill_rate start : f.Float) (b : TokenBucket)
        → new_token_bucket size refill_rate start ≡ ok b
        → f.lt size f.infinity ≡ true
        → f.le refill_rate refill_rate ≡ true
        → IsWithin size b
    unfolding new_token_bucket
    created-IsWithin refill_rate start b h finite is_rate =
        let (room, h') = guard-ok _ _ _ b h in
        let (fills, done) = guard-ok _ _ _ b h' in
        subst (IsWithin size) (ok_injective done) (record {
          of_size = refl;
          finite = finite;
          has_room =
              laws.above_zero size f.infinity (not_true _ room) (laws.lt-le size f.infinity finite);
          fills = laws.above_zero refill_rate refill_rate (not_true _ fills) is_rate;
          not_negative = laws.lt-le f.zero_float size (
              laws.above_zero size f.infinity (not_true _ room)
                (laws.lt-le size f.infinity finite));
          not_over = laws.le_self size f.infinity (laws.lt-le size f.infinity finite);
        })
      where
        not_true : (b : Bool) → not b ≡ true → b ≡ false
        not_true true h = cc h
        not_true false h = refl

    -- Over floats that respect `FloatLaws`, in which there are rounding, infinities and NaN:
    -- a bucket that was created with a finite capacity and a rate that is not NaN holds no
    -- less than nothing and no more than its capacity after any calls, whatever their times
    -- and amounts, and then refuses an amount above its capacity.
    pub bucket_bound :
        (refill_rate start : f.Float) (b : TokenBucket) (calls : List BucketCall)
        → new_token_bucket size refill_rate start ≡ ok b
        → f.lt size f.infinity ≡ true
        → f.le refill_rate refill_rate ≡ true
        → ((f.le f.zero_float (after_bucket_calls calls b).tokens ≡ true)
            × (f.le (after_bucket_calls calls b).tokens size ≡ true))
          × ((now amount : f.Float)
              → f.le amount f.zero_float ≡ false
              → f.le amount size ≡ false
              → (allow now amount (after_bucket_calls calls b)).0 ≡ false)
    bucket_bound refill_rate start b calls h finite is_rate =
        let within =
          after_bucket_calls-IsWithin calls b
            (created-IsWithin refill_rate start b h finite is_rate) in
        (
          (
            within.not_negative,
            subst (λ c. f.le (after_bucket_calls calls b).tokens c ≡ true) within.of_size
                within.not_over,
          ),
          λ now amount something over.
              refused now amount (after_bucket_calls calls b) within something over,
        )
