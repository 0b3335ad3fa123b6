-- ===== src/Webhook/Queue/Retry.antt =====
-- What `RetryLater` queues.
use mockgatehub.Prelude.{
  String, ◌≡◌, ◌≢◌, ◌⊎◌, inl, inr, refl, ap, ◌∙◌, true, false, [], ◌∷◌, ◌++◌, arith, Bool-cases,
}
use mockgatehub.Prelude.Int.{ltb_ℤ}
use mockgatehub.Prelude.Result.{ok}
use mockgatehub.Webhook.Job.{JobCodec, StreamJob, Fields, parse_stream_message}
use mockgatehub.Webhook.Job.RoundTrip.{IsKept, parse_stream_message-to_stream_fields}
use mockgatehub.Webhook.Queue.{
  RedisStream, Queue, retry_later, retry_of, next_attempt, ack, max_attempts,
}

module _ {R D : Type 0} ⦃rs : RedisStream R⦄ ⦃codec : JobCodec D⦄ where
  -- A failed job, with an ID, an event type and data that JSON gives back, whose message can be
  -- acknowledged, counts one attempt more, in the 64 bits of an int. If that makes ten or more, it is
  -- dropped, nothing being queued; otherwise, also where the count has wrapped round to a negative
  -- number, one entry waits to be queued after the others, and whatever message ID it is delivered
  -- under, it is read as the same job with the new count and the error message.
  pub retry_later_lem :
      (job : StreamJob D) (message : String) (q : Queue R D)
      → job.job_id ≢ ""
      → job.event_type ≢ ""
      → IsKept job.job_data
      → (ack job.message_id q).0 ≡ ok tt
      → let (r, q') = retry_later job message q in
        (r ≡ ok tt)
        × (((ltb_ℤ (next_attempt job.attempts) max_attempts ≡ false) × (q'.timers ≡ q.timers))
            ⊎ ((ltb_ℤ (next_attempt job.attempts) max_attempts ≡ true)
                × ((fields : Fields) × (q'.timers ≡ q.timers ++ fields ∷ [])
                    × ((id : String)
                        → parse_stream_message (record { id = id; values = fields })
                          ≡ ok (record job {
                            message_id = id;
                            attempts = next_attempt job.attempts;
                            last_error = message;
                          })))))
  unfolding retry_later ack
  retry_later_lem job message q named typed kept acked =
      elim (Bool-cases (ltb_ℤ (next_attempt job.attempts) max_attempts)) [
        | inr last ↦ (rw (acked, last) refl, inl (last, rw (acked, last) refl))
        | inl more ↦
            let (fields, printed, _) =
              parse_stream_message-to_stream_fields (retry_of job message) "" named typed kept in
            (
              rw (acked, more, printed) refl,
              inr (
                more,
                (
                  fields,
                  rw (acked, more, printed) refl,
                  λ id.
                      let (again, printed', back) =
                        parse_stream_message-to_stream_fields (retry_of job message) id named typed
                          kept in
                      let same : fields ≡ again = ground (arith, printed, printed') in
                      ap (λ (f : Fields). parse_stream_message (record { id = id; values = f }))
                        same
                      ∙ back,
                ),
              ),
            )
      ]
