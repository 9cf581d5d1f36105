-- ===== src/Security/RateLimit/Bound.antt =====
-- internal/security/ratelimit.go: how many requests of one address are let through.
use native.Mathlib.Nat.{mul-add, add-mul, mul-le-mul_right}
use opensourcebackup.Prelude.{
  ==_iff, Bool, Bool-cases, List, Option, Option-cases, [], ap, arith, bit, if◌then◌else◌, inl, inr,
  none, refl, some, subst, sym, ℕ, ◌*◌, ◌+◌, ◌-◌, ◌==◌, ◌∙◌, ◌∷◌, ◌≡◌, ◌≢◌, ◌≤◌,
}
use opensourcebackup.Prelude.Table.{
  Unique, delete_where, delete_where-Unique, find, find-delete_where, find-delete_where-none,
  find-deleted, find-key,
}
use opensourcebackup.Security.RateLimit.{
  Bucket, Buckets, LimiterEvent, after_event, allow, allow_ip, bucket_address, bucket_of, cleanup,
  is_idle, limiter_request, limiter_tick, limiter_ttl, passed_count, passes, refilled,
}

abbrev pub event_time : LimiterEvent → ℕ
event_time (limiter_request _ t) = t
event_time (limiter_tick t) = t

-- The times do not go back.
abbrev pub InOrder : ℕ → ℕ → List LimiterEvent → Type 0
InOrder from until [] = from ≤ until
InOrder from until (v ∷ vs) = (from ≤ event_time v) × InOrder (event_time v) until vs

InOrder-le : (vs : List LimiterEvent) (from until : ℕ) → InOrder from until vs → from ≤ until
InOrder-le [] from until h = h
InOrder-le (v ∷ vs) from until h = omega (arith, h.0, InOrder-le vs (event_time v) until h.1)

abbrev unless : {A : Type 0} → (A → Bool) → Option A → Option A
unless p none = none
unless p (some x) = if p x then none else some x

find-delete_where-unless :
    {A : Type 0} (key : A → ℕ) (p : A → Bool) (k : ℕ) (xs : List A)
    → Unique key xs
    → find key k (delete_where p xs) ≡ unless p (find key k xs)
unfolding find delete_where
find-delete_where-unless key p k [] u = refl
find-delete_where-unless key p k (x ∷ xs) u =
    ground
      (arith, find-delete_where-unless key p k xs u.1, find-delete_where-none key p (key x) xs u.0)

module _ (unit rate burst : ℕ) where
  -- The parts that the address has at a time.
  abbrev level : ℕ → Option Bucket → ℕ
  level t none = burst
  level t (some b) = refilled unit rate burst t b

  abbrev level_of : ℕ → ℕ → Buckets → ℕ
  level_of ip t buckets = level t (find bucket_address ip buckets)

  split_elapsed :
      (from t until : ℕ)
      → from ≤ t
      → t ≤ until
      → (t - from) * rate + (until - t) * rate ≡ (until - from) * rate
  split_elapsed from t until a b =
      sym (add-mul (t - from) (until - t) rate) ∙ ap (λ k. k * rate) (omega arith)

  elapsed-le : (l from t : ℕ) → (t - l) * rate ≤ (from - l) * rate + (t - from) * rate
  elapsed-le l from t =
      let shorter : t - l ≤ (from - l) + (t - from) = omega arith in
      omega (arith, mul-le-mul_right rate shorter, add-mul (from - l) (t - from) rate)

  level-grows : (from t : ℕ) (o : Option Bucket) → level t o ≤ level from o + (t - from) * rate
  level-grows from t none = omega arith
  level-grows from t (some b) = ground (arith, elapsed-le b.last_seen from t)

  level-le : (t : ℕ) (o : Option Bucket) → level t o ≤ burst
  level-le t none = omega arith
  level-le t (some b) = ground arith

  self_elapsed : (t : ℕ) → (t - t) * rate ≡ 0
  self_elapsed t =
      let zero_time : t - t ≡ 0 = omega arith in ap (λ k. k * rate) zero_time ∙ omega arith

  allow-level :
      (t : ℕ) (b : Bucket)
      → unit * bit (allow unit rate burst t b).0 + level t (some (allow unit rate burst t b).1)
        ≤ refilled unit rate burst t b
  unfolding allow
  allow-level t b = ground (arith, self_elapsed t)

  ticked :
      (t : ℕ) (o : Option Bucket)
      → burst ≤ limiter_ttl * rate
      → level t (unless (is_idle t) o) ≤ level t o
  ticked t none small = omega arith
  ticked t (some b) small = elim (Bool-cases (is_idle t b)) [
    | inl idle ↦
        let long : limiter_ttl ≤ t - b.last_seen = ground (arith, idle) in
        rw idle (ground (arith, small, mul-le-mul_right rate long))
    | inr recent ↦ rw recent (omega arith)
  ]

  allow-address : (t : ℕ) (b : Bucket) → (allow unit rate burst t b).1.address ≡ b.address
  unfolding allow
  allow-address t b = ground arith

  abbrev asked : ℕ → ℕ → Buckets → Bucket
  asked ip t buckets = bucket_of unit rate burst ip t (find bucket_address ip buckets)

  asked-address : (ip t : ℕ) (buckets : Buckets) → (asked ip t buckets).address ≡ ip
  asked-address ip t buckets = elim (Option-cases (find bucket_address ip buckets)) [
    | inl missing ↦ rw missing refl
    | inr (b, there) ↦ rw there (find-key bucket_address ip buckets there)
  ]

  answered-address :
      (ip t : ℕ) (buckets : Buckets) → (allow unit rate burst t (asked ip t buckets)).1.address ≡ ip
  answered-address ip t buckets = allow-address t (asked ip t buckets) ∙ asked-address ip t buckets

  asked_level :
      (ip t : ℕ) (o : Option Bucket)
      → refilled unit rate burst t (bucket_of unit rate burst ip t o) ≤ level t o
  asked_level ip t none = ground (arith, self_elapsed t)
  asked_level ip t (some b) = omega arith

  found_first :
      (ip : ℕ) (b : Bucket) (buckets : Buckets)
      → b.address ≡ ip
      → find bucket_address ip (b ∷ buckets) ≡ some b
  unfolding find
  found_first ip b buckets e = ground (arith, e)

  found_behind :
      (ip asker : ℕ) (b : Bucket) (buckets : Buckets)
      → b.address ≡ asker
      → asker ≢ ip
      → find bucket_address ip (b ∷ delete_where (λ x. bucket_address x == asker) buckets)
        ≡ find bucket_address ip buckets
  unfolding find
  found_behind ip asker b buckets e ne =
      ground (arith, e, find-delete_where bucket_address asker ip buckets (λ same. ne (sym same)))

  own_request :
      (ip t : ℕ) (buckets : Buckets)
      → unit * bit (allow_ip unit rate burst ip t buckets).0
          + level_of ip t (allow_ip unit rate burst ip t buckets).1
        ≤ level_of ip t buckets
  unfolding allow_ip
  own_request ip t buckets =
      rw
        (found_first ip (allow unit rate burst t (asked ip t buckets)).1
          (delete_where (λ x. bucket_address x == ip) buckets) (answered-address ip t buckets))
        (omega (
          arith,
          allow-level t (asked ip t buckets),
          asked_level ip t (find bucket_address ip buckets),
        ))

  other_request :
      (ip asker t : ℕ) (buckets : Buckets)
      → asker ≢ ip
      → level_of ip t (allow_ip unit rate burst asker t buckets).1 ≡ level_of ip t buckets
  unfolding allow_ip
  other_request ip asker t buckets ne = ap (level t) (
      found_behind ip asker (allow unit rate burst t (asked asker t buckets)).1 buckets
        (answered-address asker t buckets) ne)

  event_level :
      (ip : ℕ) (v : LimiterEvent) (buckets : Buckets)
      → Unique bucket_address buckets
      → burst ≤ limiter_ttl * rate
      → unit * bit (passes unit rate burst ip v buckets)
          + level_of ip (event_time v) (after_event unit rate burst v buckets)
        ≤ level_of ip (event_time v) buckets
  unfolding cleanup
  event_level ip (limiter_tick t) buckets u small =
      rw (find-delete_where-unless bucket_address (is_idle t) ip buckets u)
        (omega (arith, ticked t (find bucket_address ip buckets) small))
  event_level ip (limiter_request asker t) buckets u small = elim (Bool-cases (asker == ip)) [
    | inl same ↦
        let eq : asker ≡ ip = (==_iff asker ip).0 same in
        rw same (
          subst
            (λ k.
              unit * bit (allow_ip unit rate burst asker t buckets).0
                + level_of k t (allow_ip unit rate burst asker t buckets).1
              ≤ level_of k t buckets)
            eq (own_request asker t buckets))
    | inr differs ↦
        let ne : asker ≢ ip = λ e. ground (arith, differs, e) in
        rw differs (omega (arith, other_request ip asker t buckets ne))
  ]

  after_event-Unique :
      (v : LimiterEvent) (buckets : Buckets)
      → Unique bucket_address buckets
      → Unique bucket_address (after_event unit rate burst v buckets)
  unfolding allow_ip cleanup allow
  after_event-Unique (limiter_tick t) buckets u =
      delete_where-Unique bucket_address (is_idle t) buckets u
  after_event-Unique (limiter_request asker t) buckets u = (
    ap (λ k. find bucket_address k (delete_where (λ x. bucket_address x == asker) buckets))
          (answered-address asker t buckets)
        ∙ find-deleted bucket_address asker buckets,
    delete_where-Unique bucket_address (λ x. bucket_address x == asker) buckets u,
  )

  passed-level :
      (ip : ℕ) (vs : List LimiterEvent) (from until : ℕ) (buckets : Buckets)
      → Unique bucket_address buckets
      → burst ≤ limiter_ttl * rate
      → InOrder from until vs
      → unit * passed_count unit rate burst ip vs buckets
        ≤ level_of ip from buckets + (until - from) * rate
  unfolding passed_count
  passed-level ip [] from until buckets u small ordered = omega arith
  passed-level ip (v ∷ vs) from until buckets u small ordered =
      let t : ℕ = event_time v in
      let after : Buckets = after_event unit rate burst v buckets in
      omega (
        arith,
        mul-add unit (bit (passes unit rate burst ip v buckets))
            (passed_count unit rate burst ip vs after),
        passed-level ip vs t until after (after_event-Unique v buckets u) small ordered.1,
        event_level ip v buckets u small,
        level-grows from t (find bucket_address ip buckets),
        split_elapsed from t until ordered.0 (InOrder-le vs t until ordered.1),
      )

-- From any distinct buckets and for any requests from any addresses, with cleanups between them, in
-- the order of time: where a bucket refills within the cleanup's five minutes, the tokens that the
-- let-through requests of one address take are at most a full bucket and what the rate adds in the
-- time that passes. So dropping idle buckets lets nobody through that their bucket would not.
pub passed_count-bound :
    (unit rate burst ip : ℕ) (vs : List LimiterEvent) (from until : ℕ) (buckets : Buckets)
    → Unique bucket_address buckets
    → burst ≤ limiter_ttl * rate
    → InOrder from until vs
    → unit * passed_count unit rate burst ip vs buckets ≤ burst + (until - from) * rate
passed_count-bound unit rate burst ip vs from until buckets u small ordered = omega (
  arith,
  passed-level unit rate burst ip vs from until buckets u small ordered,
  level-le unit rate burst from (find bucket_address ip buckets),
)
