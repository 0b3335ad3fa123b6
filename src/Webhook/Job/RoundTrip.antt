-- ===== src/Webhook/Job/RoundTrip.antt =====
-- A job comes back from its fields.
use mockgatehub.Prelude.{
  String, ◌≡◌, ◌≢◌, refl, some, ◌==◌, arith, Bool-cases, inl, inr, ne→==, ==→eq,
}
use mockgatehub.Prelude.Result.{ok}
use mockgatehub.Prelude.GoMap.{lookup}
use mockgatehub.Webhook.Job.{
  JobCodec, StreamJob, with_data, Fields, to_stream_fields, parse_stream_message,
}

module _ {D : Type 0} ⦃codec : JobCodec D⦄ where
  -- Data that JSON gives back as it was: written to a text that is not empty, and read from it.
  pub record IsKept (d : D) : Type 0 where
    pub text : String
    pub written : codec.marshal d ≡ ok text
    pub not_empty : text ≢ ""
    pub read_back : codec.unmarshal text ≡ ok (some d)

  -- The fields of a job with an ID, an event type and data that JSON gives back, under any message ID,
  -- are read as the same job with that message ID.
  pub parse_stream_message-to_stream_fields :
      (job : StreamJob D) (id : String)
      → job.job_id ≢ ""
      → job.event_type ≢ ""
      → IsKept job.job_data
      → (fields : Fields) × (to_stream_fields job ≡ ok fields)
        × (parse_stream_message (record { id = id; values = fields })
            ≡ ok (record job { message_id = id }))
  unfolding to_stream_fields parse_stream_message lookup
  parse_stream_message-to_stream_fields job id named typed kept =
      let h = ne→== job.job_id "" named in
      let k = ne→== job.event_type "" typed in
      let t = ne→== kept.text "" kept.not_empty in
      let n = codec.atoi-itoa job.attempts in
      elim (Bool-cases (job.last_error == "")) [
        | inl fine ↦ (
          with_data job kept.text,
          ground (arith, kept.written),
          rw (h, k, t, kept.read_back, n, ==→eq job.last_error "" fine) refl,
        )
        | inr failed ↦ (
          with_data job kept.text,
          ground (arith, kept.written),
          rw (h, k, t, kept.read_back, n, failed) refl,
        )
      ]
