-- ===== src/Webhook/Worker/Attempts.antt =====
-- The worker gives a job up: no attempt number grows past its bound.
use mockgatehub.Prelude.{
  String, inl, inr, refl, subst, Option, List, [], ◌∷◌, All, All-remove, All-map, Bool-cases,
  Option-cases, if◌then◌else◌,
}
use mockgatehub.Prelude.Int.{ℤ, pos, ltb_ℤ}
use mockgatehub.Prelude.Result.{Result-cases}
use mockgatehub.Webhook.Job.{JobCodec, StreamJob, XMessage, to_stream_fields, parse_stream_message}
use mockgatehub.Webhook.Queue.{
  RedisStream, Queue, retry_later, retry_of, next_attempt, ack, max_attempts, enqueue,
  add_to_stream, parse_batch, batch_size,
}
use mockgatehub.Webhook.Worker.{
  process_job, process_jobs, read_and_process, reclaim_stale, QueueStep, QueueSteps, reading,
  reclaiming, enqueuing, firing, cancelling, done, next,
}
use mockgatehub.Webhook.Worker.Early.{
  IsEarly, IsEarlyJob, AttemptsBounded, to_stream_fields-IsEarly, parse_stream_message-IsEarlyJob,
  ack-AttemptsBounded, add_to_stream-AttemptsBounded, timer-AttemptsBounded,
}

module _ {R D : Type 0} ⦃rs : RedisStream R⦄ ⦃codec : JobCodec D⦄ where
  enqueue-AttemptsBounded :
      (uuid now : String) (min_delay offset : ℤ) (event_type user_id : String) (d : D)
      (q : Queue R D)
      → AttemptsBounded q
      → AttemptsBounded (enqueue uuid now min_delay offset event_type user_id d q).1
  unfolding enqueue
  enqueue-AttemptsBounded uuid now min_delay offset event_type user_id d q h =
      let job : StreamJob D = record {
        message_id = "";
        job_id = uuid;
        event_type = event_type;
        user_id = user_id;
        job_data = d;
        attempts = pos 0;
        created_at = now;
        last_error = "";
      } in
      elim (Result-cases (to_stream_fields job)) [
        | inl (e, bad) ↦ rw bad h
        | inr (fields, good) ↦
            let early = to_stream_fields-IsEarly job fields good refl in
            elim (Bool-cases
              (ltb_ℤ (pos 0) (if ltb_ℤ min_delay offset then offset else min_delay))) [
                | inl later ↦ rw (good, later) (timer-AttemptsBounded fields q early h)
                | inr now ↦
                    let after = add_to_stream-AttemptsBounded fields q early h in
                    elim (Result-cases (add_to_stream fields q).0) [
                      | inl (e, bad) ↦ rw (good, now, bad) after
                      | inr (_, fine) ↦ rw (good, now, fine) after
                    ]
              ]
      ]

  parse_batch-AttemptsBounded :
      (messages : List XMessage) (q : Queue R D)
      → All (λ m. IsEarly codec.atoi m.values) messages
      → AttemptsBounded q
      → let (jobs, q') = parse_batch messages q in All IsEarlyJob jobs × AttemptsBounded q'
  unfolding parse_batch
  parse_batch-AttemptsBounded [] q e h = (tt, h)
  parse_batch-AttemptsBounded (msg ∷ msgs) q e h =
      elim (Result-cases (parse_stream_message {D = D} msg)) [
        | inl (bad, refused) ↦
            rw (parse_batch, refused)
              (parse_batch-AttemptsBounded msgs (ack msg.id q).1 e.1
                (ack-AttemptsBounded msg.id q h))
        | inr (job, read) ↦
            let (jobs, after) = parse_batch-AttemptsBounded msgs q e.1 h in
            rw (parse_batch, read) ((parse_stream_message-IsEarlyJob msg job read e.0, jobs), after)
      ]

  retry_later-AttemptsBounded :
      (job : StreamJob D) (message : String) (q : Queue R D)
      → AttemptsBounded q
      → AttemptsBounded (retry_later job message q).1
  unfolding retry_later
  retry_later-AttemptsBounded job message q h =
      let after = ack-AttemptsBounded job.message_id q h in
      elim (Result-cases (ack job.message_id q).0) [
        | inl (e, bad) ↦ rw bad after
        | inr (_, acked) ↦ elim (Bool-cases (ltb_ℤ (next_attempt job.attempts) max_attempts)) [
          | inr last ↦ rw (acked, last) after
          | inl more ↦ elim (Result-cases (to_stream_fields (retry_of job message))) [
            | inl (e, bad) ↦ rw (acked, more, bad) after
            | inr (fields, good) ↦
                rw (acked, more, good)
                  (timer-AttemptsBounded fields (ack job.message_id q).1
                    (to_stream_fields-IsEarly (retry_of job message) fields good more) after)
          ]
        ]
      ]

  process_job-AttemptsBounded :
      (respond : StreamJob D → Option String) (job : StreamJob D) (q : Queue R D)
      → IsEarlyJob job
      → AttemptsBounded q
      → AttemptsBounded (process_job respond job q)
  unfolding process_job
  process_job-AttemptsBounded respond job q early h =
      let tried : AttemptsBounded (record q { sent = job ∷ q.sent }) = record {
        queued = h.queued;
        waiting = h.waiting;
        tried = (early, h.tried);
      } in
      elim (Option-cases (respond job)) [
        | inl fine ↦ rw (process_job, fine) (ack-AttemptsBounded job.message_id _ tried)
        | inr (e, failed) ↦ rw (process_job, failed) (retry_later-AttemptsBounded job e _ tried)
      ]

  process_jobs-AttemptsBounded :
      (respond : StreamJob D → Option String) (jobs : List (StreamJob D)) (q : Queue R D)
      → All IsEarlyJob jobs
      → AttemptsBounded q
      → AttemptsBounded (process_jobs respond jobs q)
  unfolding process_jobs
  process_jobs-AttemptsBounded respond [] q e h = h
  process_jobs-AttemptsBounded respond (job ∷ jobs) q e h =
      process_jobs-AttemptsBounded respond jobs (process_job respond job q) e.1
        (process_job-AttemptsBounded respond job q e.0 h)

  read_and_process-AttemptsBounded :
      (respond : StreamJob D → Option String) (q : Queue R D)
      → AttemptsBounded q
      → AttemptsBounded (read_and_process respond q)
  unfolding read_and_process
  read_and_process-AttemptsBounded respond q h =
      let q' : Queue R D = record q { redis = (rs.x_read_group batch_size q.redis).1 } in
      let left : AttemptsBounded q' = record {
        queued = λ f w. h.queued f (rs.was_read batch_size f q.redis w);
        waiting = h.waiting;
        tried = h.tried;
      } in
      elim (Result-cases (rs.x_read_group batch_size q.redis).0) [
        | inl (e, bad) ↦ rw (read_and_process, bad) left
        | inr (messages, good) ↦
            let early =
              All-map (λ (m : XMessage) w. h.queued m.values w) messages
                (rs.read_added batch_size q.redis messages good) in
            let (jobs, after) = parse_batch-AttemptsBounded messages q' early left in
            rw (read_and_process, good) (process_jobs-AttemptsBounded respond _ _ jobs after)
      ]

  reclaim_stale-AttemptsBounded :
      (respond : StreamJob D → Option String) (q : Queue R D)
      → AttemptsBounded q
      → AttemptsBounded (reclaim_stale respond q)
  unfolding reclaim_stale
  reclaim_stale-AttemptsBounded respond q h =
      let q' : Queue R D = record q { redis = (rs.x_auto_claim batch_size q.redis).1 } in
      let left : AttemptsBounded q' = record {
        queued = λ f w. h.queued f (rs.was_claimed batch_size f q.redis w);
        waiting = h.waiting;
        tried = h.tried;
      } in
      elim (Result-cases (rs.x_auto_claim batch_size q.redis).0) [
        | inl (e, bad) ↦ rw (reclaim_stale, bad) left
        | inr (messages, good) ↦
            let early =
              All-map (λ (m : XMessage) w. h.queued m.values w) messages
                (rs.claim_added batch_size q.redis messages good) in
            let (jobs, after) = parse_batch-AttemptsBounded messages q' early left in
            rw (reclaim_stale, good) (process_jobs-AttemptsBounded respond _ _ jobs after)
      ]

  QueueStep-AttemptsBounded :
      {q q' : Queue R D} → QueueStep q q' → AttemptsBounded q → AttemptsBounded q'
  QueueStep-AttemptsBounded (reading respond q) h = read_and_process-AttemptsBounded respond q h
  QueueStep-AttemptsBounded (reclaiming respond q) h = reclaim_stale-AttemptsBounded respond q h
  QueueStep-AttemptsBounded (enqueuing uuid now min_delay offset event_type user_id d q) h =
      enqueue-AttemptsBounded uuid now min_delay offset event_type user_id d q h
  QueueStep-AttemptsBounded (firing earlier later fields q e) h =
      let (early, others) =
        All-remove _ earlier later fields (subst (All (IsEarly codec.atoi)) e h.waiting) in
      add_to_stream-AttemptsBounded fields _ early
        (record { queued = h.queued; waiting = others; tried = h.tried })
  QueueStep-AttemptsBounded (cancelling earlier later fields q e) h =
      let (early, others) =
        All-remove _ earlier later fields (subst (All (IsEarly codec.atoi)) e h.waiting) in
      record { queued = h.queued; waiting = others; tried = h.tried }

  -- Whatever the interleaving of the worker's reads, its reclaims of stale messages, enqueued jobs and
  -- timers that fire or are cancelled, and however each send ends: where everything that is queued, waits for a timer
  -- or was tried had fewer than ten attempts before, this stays so. So every send is at most a job's
  -- tenth attempt, by the count that the job carries.
  pub QueueSteps-AttemptsBounded :
      {q q' : Queue R D} → QueueSteps q q' → AttemptsBounded q → AttemptsBounded q'
  QueueSteps-AttemptsBounded (done q) h = h
  QueueSteps-AttemptsBounded (next steps step) h =
      QueueStep-AttemptsBounded step (QueueSteps-AttemptsBounded steps h)
