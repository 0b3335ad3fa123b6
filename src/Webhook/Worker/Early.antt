-- ===== src/Webhook/Worker/Early.antt =====
-- The bound on attempts, and the calls that keep it whatever the job.
use mockgatehub.Prelude.{
  String, ◌≡◌, inl, inr, sym, subst, true, [], ◌∷◌, ◌++◌, All, All-append, arith,
}
use mockgatehub.Prelude.Int.{ℤ, ltb_ℤ}
use mockgatehub.Prelude.Result.{ok, Result-cases}
use mockgatehub.Prelude.GoMap.{lookup}
use mockgatehub.Webhook.Job.{
  JobCodec, StreamJob, with_data, Fields, XMessage, to_stream_fields, parse_stream_message,
  attempts_of, data_of,
}
use mockgatehub.Webhook.Queue.{RedisStream, Queue, ack, max_attempts, add_to_stream}

-- The attempts that came before, as the fields give them, are fewer than ten.
abbrev pub IsEarly : (String → ℤ) → Fields → Type 0
IsEarly atoi fields = ltb_ℤ (attempts_of atoi (lookup "attempts" fields)) max_attempts ≡ true

abbrev pub IsEarlyJob : {D : Type 0} → StreamJob D → Type 0
IsEarlyJob job = ltb_ℤ job.attempts max_attempts ≡ true

module _ {D : Type 0} ⦃codec : JobCodec D⦄ where
  pub to_stream_fields-IsEarly :
      (job : StreamJob D) (fields : Fields)
      → to_stream_fields job ≡ ok fields
      → IsEarlyJob job
      → IsEarly codec.atoi fields
  unfolding to_stream_fields lookup
  to_stream_fields-IsEarly job fields h k = elim (Result-cases (codec.marshal job.job_data)) [
    | inl (e, bad) ↦ absurd (ground (arith, bad))
    | inr (text, good) ↦
        let same : fields ≡ with_data job text = ground (arith, good) in
        rw (same, codec.atoi-itoa job.attempts) k
  ]

  pub parse_stream_message-IsEarlyJob :
      (msg : XMessage) (job : StreamJob D)
      → parse_stream_message msg ≡ ok job
      → IsEarly codec.atoi msg.values
      → IsEarlyJob job
  unfolding parse_stream_message
  parse_stream_message-IsEarlyJob msg job h k =
      elim (Result-cases (data_of {D = D} (lookup "data" msg.values))) [
        | inl (e, bad) ↦ absurd (ground (arith, bad))
        | inr (d, good) ↦
            let same : job.attempts ≡ attempts_of codec.atoi (lookup "attempts" msg.values) =
              ground (arith, good) in
            subst (λ n. ltb_ℤ n max_attempts ≡ true) (sym same) k
      ]

module _ {R D : Type 0} ⦃rs : RedisStream R⦄ ⦃codec : JobCodec D⦄ where
  -- Everything that is queued, waits for a timer or was tried had fewer than ten attempts before.
  pub record AttemptsBounded (q : Queue R D) : Type 0 where
    pub queued : (fields : Fields) → rs.WasAdded fields q.redis → IsEarly codec.atoi fields
    pub waiting : All (IsEarly codec.atoi) q.timers
    pub tried : All IsEarlyJob q.sent

  pub ack-AttemptsBounded :
      (id : String) (q : Queue R D) → AttemptsBounded q → AttemptsBounded (ack id q).1
  unfolding ack
  ack-AttemptsBounded id q h = record {
    queued = λ f w. h.queued f (rs.acked id f q.redis w);
    waiting = h.waiting;
    tried = h.tried;
  }

  pub add_to_stream-AttemptsBounded :
      (fields : Fields) (q : Queue R D)
      → IsEarly codec.atoi fields
      → AttemptsBounded q
      → AttemptsBounded (add_to_stream fields q).1
  unfolding add_to_stream
  add_to_stream-AttemptsBounded fields q early h =
      let known = λ (f : Fields) (w : rs.WasAdded f (rs.x_add fields q.redis).1).
        elim (rs.added fields f q.redis w) as (λ _. IsEarly codec.atoi f) [
          | inl same ↦ subst (IsEarly codec.atoi) (sym same) early
          | inr before ↦ h.queued f before
        ] in
      elim (Result-cases (rs.x_add fields q.redis).0) [
        | inl (e, bad) ↦ rw bad (record { queued = known; waiting = h.waiting; tried = h.tried })
        | inr (_, good) ↦ rw good (record {
          queued = λ f w. known f (rs.trimmed f _ w);
          waiting = h.waiting;
          tried = h.tried;
        })
      ]

  pub timer-AttemptsBounded :
      (fields : Fields) (q : Queue R D)
      → IsEarly codec.atoi fields
      → AttemptsBounded q
      → AttemptsBounded (record q { timers = q.timers ++ fields ∷ [] })
  timer-AttemptsBounded fields q early h = record {
    queued = h.queued;
    waiting = All-append _ q.timers (fields ∷ []) h.waiting (early, tt);
    tried = h.tried;
  }
