-- ===== src/Tests/Webhook.antt =====
-- The jobs of the webhook queue.
use mockgatehub.Prelude.{
  String, ◌≡◌, ◌⊎◌, refl, true, false, Option, some, List, [], ◌∷◌, arith, eq_iff,
}
use mockgatehub.Prelude.Int.{pos, ltb_ℤ}
use mockgatehub.Prelude.Result.{ok}
use mockgatehub.Webhook.Job.{StreamJob, Fields, to_stream_fields, parse_stream_message}
use mockgatehub.Webhook.Job.RoundTrip.{IsKept, parse_stream_message-to_stream_fields}
use mockgatehub.Webhook.Queue.{Queue, retry_later, next_attempt, max_attempts, ack, enqueue}
use mockgatehub.Webhook.Queue.Retry.{retry_later_lem}
use mockgatehub.Webhook.Worker.{read_and_process, reading, enqueuing, done, next}
use mockgatehub.Webhook.Worker.Attempts.{QueueSteps-AttemptsBounded}
use mockgatehub.Webhook.Worker.Early.{AttemptsBounded}
use mockgatehub.Tests.Redis.{stream, codec}

abbrev job : StreamJob String
job = record {
  message_id = "1-0";
  job_id = "job-1";
  event_type = "core.deposit.completed";
  user_id = "alice-id";
  job_data = "{}";
  attempts = pos 3;
  created_at = "now";
  last_error = "timeout";
}

kept : IsKept job.job_data
unfolding codec
kept = record {
  text = "{}";
  written = refl;
  not_empty = λ e. ground (arith, eq_iff "{}" "");
  read_back = refl;
}

parse_stream_message-to_stream_fields_example :
    (fields : Fields) × (to_stream_fields job ≡ ok fields)
    × (parse_stream_message (record { id = "2-0"; values = fields })
        ≡ ok (record job { message_id = "2-0" }))
parse_stream_message-to_stream_fields_example =
    parse_stream_message-to_stream_fields job "2-0" (λ e. ground (arith, eq_iff "job-1" ""))
      (λ e. ground (arith, eq_iff "core.deposit.completed" "")) kept

abbrev idle : Queue (List Fields) String
idle = record { redis = []; timers = []; sent = [] }

acknowledged : (ack job.message_id idle).0 ≡ ok tt
unfolding ack stream
acknowledged = refl

retry_later_lem_example :
    let (r, q') = retry_later job "refused" idle in
    (r ≡ ok tt)
    × (((ltb_ℤ (next_attempt (pos 3)) max_attempts ≡ false) × (q'.timers ≡ []))
        ⊎ ((ltb_ℤ (next_attempt (pos 3)) max_attempts ≡ true)
            × ((fields : Fields) × (q'.timers ≡ fields ∷ [])
                × ((id : String)
                    → parse_stream_message (record { id = id; values = fields })
                      ≡ ok (record job {
                        message_id = id;
                        attempts = next_attempt (pos 3);
                        last_error = "refused";
                      })))))
retry_later_lem_example =
    retry_later_lem job "refused" idle (λ e. ground (arith, eq_iff "job-1" ""))
      (λ e. ground (arith, eq_iff "core.deposit.completed" "")) kept acknowledged

abbrev refusing : StreamJob String → Option String
refusing _ = some "connection refused"

abbrev enqueued : Queue (List Fields) String
enqueued = (enqueue "job-2" "now" (pos 0) (pos 0) "core.deposit.completed" "alice-id" "{}" idle).1

idle-AttemptsBounded : AttemptsBounded idle
unfolding stream
idle-AttemptsBounded = record { queued = λ f w. absurd w; waiting = tt; tried = tt }

QueueSteps-AttemptsBounded_example : AttemptsBounded (read_and_process refusing enqueued)
QueueSteps-AttemptsBounded_example =
    QueueSteps-AttemptsBounded
      (next
        (next (done idle)
          (enqueuing "job-2" "now" (pos 0) (pos 0) "core.deposit.completed" "alice-id" "{}" idle))
        (reading refusing enqueued))
      idle-AttemptsBounded
