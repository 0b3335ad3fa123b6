-- ===== src/Webhook/Queue.antt =====
-- internal/webhook/queue.go: the queue of jobs on a Redis stream. The Redis client is an interface: its
-- calls, and what its documentation says of the messages that it hands out. A goroutine that waits
-- for its timer is an entry of `timers`, the fields that it adds to the stream when it fires.
pub mod Retry
use Prim.Native.String
use mockgatehub.Prelude.{
  ℕ, String, ◌≡◌, ◌⊎◌, Bool, true, false, Option, none, some, List, [], ◌∷◌, ◌++◌, All, not, ◌==◌,
  if◌then◌else◌,
}
use mockgatehub.Prelude.Int.{ℤ, pos, ◌+ℤ◌, ltb_ℤ, wrap}
use mockgatehub.Prelude.Result.{Result, ok, err, Exec, ◌>>=◌, ◌>>◌, or_else, lift, modify, pure}
use mockgatehub.Webhook.Job.{
  JobCodec, StreamJob, Fields, XMessage, to_stream_fields, parse_stream_message,
}

-- The client on one stream and consumer group. `WasAdded f r`: the fields `f` were added to the stream.
-- A message that is handed out, for the first time or again, was added, and no call but `x_add` adds.
pub record RedisStream (R : Type 0) : Type 1 where
  pub x_add : Fields → R → Result String (Unit {0}) × R
  pub x_trim : R → R  -- XTrimMaxLenApprox
  pub x_ack : String → R → Result String (Unit {0}) × R
  pub x_read_group : ℕ → R → Result String (List XMessage) × R  -- a timeout is no message
  pub x_auto_claim : ℕ → R → Result String (List XMessage) × R
  pub WasAdded : Fields → R → Type 0
  pub read_added :
      (n : ℕ) (r : R) (messages : List XMessage)
      → (x_read_group n r).0 ≡ ok messages
      → All (λ m. WasAdded m.values r) messages
  pub claim_added :
      (n : ℕ) (r : R) (messages : List XMessage)
      → (x_auto_claim n r).0 ≡ ok messages
      → All (λ m. WasAdded m.values r) messages
  pub added : (f g : Fields) (r : R) → WasAdded g (x_add f r).1 → (g ≡ f) ⊎ WasAdded g r
  pub trimmed : (g : Fields) (r : R) → WasAdded g (x_trim r) → WasAdded g r
  pub acked : (id : String) (g : Fields) (r : R) → WasAdded g (x_ack id r).1 → WasAdded g r
  pub was_read : (n : ℕ) (g : Fields) (r : R) → WasAdded g (x_read_group n r).1 → WasAdded g r
  pub was_claimed : (n : ℕ) (g : Fields) (r : R) → WasAdded g (x_auto_claim n r).1 → WasAdded g r

abbrev pub max_attempts : ℤ
max_attempts = pos 10

abbrev pub batch_size : ℕ
batch_size = 10

-- `sent` holds the jobs whose webhook the worker has tried to send, the last one first.
pub record Queue (R D : Type 0) : Type 0 where
  pub redis : R
  pub timers : List Fields
  pub sent : List (StreamJob D)

abbrev pub QueueAction : Type 0 → Type 0 → Type 0 → Type 0
QueueAction R D A = Exec (Queue R D) String A

-- one more, in 64 bits
unfoldable pub next_attempt : ℤ → ℤ
next_attempt attempts = wrap (attempts +ℤ pos 1)

-- The job as it is queued again.
abbrev pub retry_of : {D : Type 0} → StreamJob D → String → StreamJob D
retry_of job message = record job {
  message_id = "";
  attempts = next_attempt job.attempts;
  last_error = message;
}

module _ {R D A : Type 0} where
  abbrev pub on_redis : (R → Result String A × R) → QueueAction R D A
  on_redis m q = let (r, redis) = m q.redis in (r, record q { redis = redis })

module _ {R D : Type 0} ⦃rs : RedisStream R⦄ where
  unfoldable pub add_to_stream : Fields → QueueAction R D (Unit {0})
  add_to_stream fields = do
    or_else (on_redis (rs.x_add fields)) (λ e. String.◌++◌ "XADD failed: " e)
    modify (λ q. record q { redis = rs.x_trim q.redis })

  unfoldable pub ack : String → QueueAction R D (Unit {0})
  ack message_id = on_redis (rs.x_ack message_id)

module _ {R D : Type 0} ⦃rs : RedisStream R⦄ ⦃codec : JobCodec D⦄ where
  -- `uuid` and `now` are what is generated, `data` what `coerceToMap` makes of the data, and the
  -- delays are the queue's and the offset, in nanoseconds.
  unfoldable pub enqueue :
      (uuid now : String) (min_delay offset : ℤ) → String → String → D → QueueAction R D String
  unfolding add_to_stream
  enqueue uuid now min_delay offset event_type user_id coerced = do
    let job : StreamJob D = record {
      message_id = "";
      job_id = uuid;
      event_type = event_type;
      user_id = user_id;
      job_data = coerced;
      attempts = pos 0;
      created_at = now;
      last_error = "";
    }
    fields ← lift (to_stream_fields job)
    let total_delay = if ltb_ℤ min_delay offset then offset else min_delay
    if ltb_ℤ (pos 0) total_delay
        then modify (λ q. record q { timers = q.timers ++ fields ∷ [] })
        else add_to_stream fields
    pure uuid

  -- The jobs of a batch; a message that does not parse is acknowledged and skipped.
  unfoldable pub parse_batch : List XMessage → Queue R D → List (StreamJob D) × Queue R D
  unfolding ack
  parse_batch [] q = ([], q)
  parse_batch (msg ∷ msgs) q = elim (parse_stream_message msg) [
    | ok job ↦ let (jobs, q') = parse_batch msgs q in (job ∷ jobs, q')
    | err _ ↦ parse_batch msgs (ack msg.id q).1
  ]

  unfoldable pub read_jobs : ℕ → QueueAction R D (List (StreamJob D))
  read_jobs count = do
    messages ← or_else (on_redis (rs.x_read_group count)) (λ e. String.◌++◌ "XREADGROUP failed: " e)
    λ q. let (jobs, q') = parse_batch messages q in (ok jobs, q')

  unfoldable pub claim_stale : QueueAction R D (List (StreamJob D))
  claim_stale = do
    messages ←
        or_else (on_redis (rs.x_auto_claim batch_size)) (λ e. String.◌++◌ "XAUTOCLAIM failed: " e)
    λ q. let (jobs, q') = parse_batch messages q in (ok jobs, q')

  unfoldable pub retry_later : StreamJob D → String → QueueAction R D (Unit {0})
  retry_later job message = do
    or_else (ack job.message_id) (λ e. String.◌++◌ "failed to ack message for retry: " e)
    if not (ltb_ℤ (next_attempt job.attempts) max_attempts) then pure tt else do
      fields ←
          or_else (lift (to_stream_fields (retry_of job message)))
            (λ e. String.◌++◌ "failed to serialize retry: " e)
      modify (λ q. record q { timers = q.timers ++ fields ∷ [] })
