-- ===== src/Webhook/Worker.antt =====
-- internal/webhook/worker.go: the worker on the queue, and the steps of worker, callers and timers.
pub mod Early
pub mod Attempts
use mockgatehub.Prelude.{String, ◌≡◌, Option, none, some, List, [], ◌∷◌, ◌++◌}
use mockgatehub.Prelude.Int.{ℤ, pos}
use mockgatehub.Prelude.Result.{Result, ok, err}
use mockgatehub.Webhook.Job.{JobCodec, StreamJob, Fields}
use mockgatehub.Webhook.Queue.{
  RedisStream, Queue, ack, retry_later, read_jobs, claim_stale, enqueue, add_to_stream, batch_size,
}

module _ {R D : Type 0} ⦃rs : RedisStream R⦄ ⦃codec : JobCodec D⦄ where
  -- `respond` is what `Manager.send` returns: none for nil.
  unfoldable pub process_job : (StreamJob D → Option String) → StreamJob D → Queue R D → Queue R D
  process_job respond job q =
      let tried = record q { sent = job ∷ q.sent } in
      elim (respond job) [
        | some e ↦ (retry_later job e tried).1
        | none ↦ (ack job.message_id tried).1
      ]

  unfoldable pub process_jobs :
      (StreamJob D → Option String) → List (StreamJob D) → Queue R D → Queue R D
  process_jobs respond [] q = q
  process_jobs respond (job ∷ jobs) q = process_jobs respond jobs (process_job respond job q)

  abbrev process_read :
      (StreamJob D → Option String) → Result String (List (StreamJob D)) × Queue R D → Queue R D
  process_read respond (ok jobs, q) = process_jobs respond jobs q
  process_read respond (err _, q) = q

  unfoldable pub read_and_process : (StreamJob D → Option String) → Queue R D → Queue R D
  unfolding read_jobs
  read_and_process respond q = process_read respond (read_jobs batch_size q)

  unfoldable pub reclaim_stale : (StreamJob D → Option String) → Queue R D → Queue R D
  unfolding claim_stale
  reclaim_stale respond q = process_read respond (claim_stale q)

  -- What happens next: the worker reads a batch or reclaims stale messages, with any responses, a
  -- caller enqueues a job, or one of the timers fires or is cancelled with its context. The context of a
  -- retry is never cancelled: the relation allows more than the code does.
  pub data QueueStep : Queue R D → Queue R D → Type 0 where
    reading :
        (respond : StreamJob D → Option String) (q : Queue R D)
        → QueueStep q (read_and_process respond q)
    reclaiming :
        (respond : StreamJob D → Option String) (q : Queue R D)
        → QueueStep q (reclaim_stale respond q)
    enqueuing :
        (uuid now : String) (min_delay offset : ℤ) (event_type user_id : String) (d : D)
        (q : Queue R D)
        → QueueStep q (enqueue uuid now min_delay offset event_type user_id d q).1
    firing :
        (earlier later : List Fields) (fields : Fields) (q : Queue R D)
        → q.timers ≡ earlier ++ fields ∷ later
        → QueueStep q (add_to_stream fields (record q { timers = earlier ++ later })).1
    cancelling :
        (earlier later : List Fields) (fields : Fields) (q : Queue R D)
        → q.timers ≡ earlier ++ fields ∷ later
        → QueueStep q (record q { timers = earlier ++ later })

  pub data QueueSteps : Queue R D → Queue R D → Type 0 where
    done : (q : Queue R D) → QueueSteps q q
    next : {q r s : Queue R D} → QueueSteps q r → QueueStep r s → QueueSteps q s
