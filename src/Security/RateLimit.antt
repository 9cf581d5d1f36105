-- ===== src/Security/RateLimit.antt =====
-- internal/security/ratelimit.go: a token bucket for each address. The code counts tokens and seconds
-- in floats; here a token is `unit` parts of a token, for a `unit` in which the rate for each
-- nanosecond is a whole number of parts, and the rounding of floats is not modelled.
pub mod Bound
use opensourcebackup.Prelude.{
  Bool, List, Option, [], bit, false, if◌then◌else◌, ltb, none, some, true, ℕ, ◌&&◌, ◌*◌, ◌+◌, ◌-◌,
  ◌==◌, ◌∷◌,
}
use opensourcebackup.Audit.{from_ip}
use opensourcebackup.Catalog.Models.{minute}
use opensourcebackup.Prelude.Table.{delete_where, find}

pub record Bucket : Type 0 where
  pub address : ℕ
  pub tokens : ℕ
  pub last_seen : ℕ

abbrev pub bucket_address : Bucket → ℕ
bucket_address b = b.address

abbrev pub Buckets : Type 0
Buckets = List Bucket

abbrev pub smaller : ℕ → ℕ → ℕ
smaller a b = if ltb b a then b else a

-- The parts of one token, the parts that a nanosecond adds, and the parts of a full bucket.
module _ (unit rate burst : ℕ) where
  abbrev pub refilled : ℕ → Bucket → ℕ
  refilled now b = smaller (b.tokens + (now - b.last_seen) * rate) burst

  unfoldable pub allow : ℕ → Bucket → Bool × Bucket
  allow now b =
      let full = refilled now b in
      if ltb full unit
      then (false, record { address = b.address; tokens = full; last_seen = now })
      else (true, record { address = b.address; tokens = full - unit; last_seen = now })

  -- A bucket that is not there yet is full.
  abbrev pub bucket_of : ℕ → ℕ → Option Bucket → Bucket
  bucket_of ip now none = record { address = ip; tokens = burst; last_seen = now }
  bucket_of ip now (some b) = b

  unfoldable pub allow_ip : ℕ → ℕ → Buckets → Bool × Buckets
  allow_ip ip now buckets =
      let (allowed, b) = allow now (bucket_of ip now (find bucket_address ip buckets)) in
      (allowed, b ∷ delete_where (λ x. bucket_address x == ip) buckets)

abbrev pub limiter_ttl : ℕ
limiter_ttl = 5 * minute

abbrev pub is_idle : ℕ → Bucket → Bool
is_idle now b = ltb limiter_ttl (now - b.last_seen)

-- One tick of cleanup.
unfoldable pub cleanup : ℕ → Buckets → Buckets
cleanup now buckets = delete_where (is_idle now) buckets

-- A request from an address, or a tick of cleanup, at a time.
pub data LimiterEvent : Type 0 where
  limiter_request : ℕ → ℕ → LimiterEvent
  limiter_tick : ℕ → LimiterEvent

module _ (unit rate burst : ℕ) where
  abbrev pub after_event : LimiterEvent → Buckets → Buckets
  after_event (limiter_request ip t) buckets = (allow_ip unit rate burst ip t buckets).1
  after_event (limiter_tick t) buckets = cleanup t buckets

  -- Whether the event is a request of the address that is let through.
  abbrev pub passes : ℕ → LimiterEvent → Buckets → Bool
  passes ip (limiter_request from_ip t) buckets =
      (from_ip == ip) && (allow_ip unit rate burst from_ip t buckets).0
  passes ip (limiter_tick t) buckets = false

  -- The requests of the address that are let through.
  unfoldable pub passed_count : ℕ → List LimiterEvent → Buckets → ℕ
  passed_count ip [] buckets = 0
  passed_count ip (v ∷ vs) buckets =
      bit (passes ip v buckets) + passed_count ip vs (after_event v buckets)
