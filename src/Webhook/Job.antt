-- ===== src/Webhook/Job.antt =====
-- internal/webhook/job.go: a job, and the fields that stand for it in the Redis stream.
pub mod RoundTrip
use Prim.Native.String.{◌++◌}
use mockgatehub.Prelude.{String, ◌≡◌, Option, none, some, List, [], ◌∷◌, ◌==◌, ◌||◌, if◌then◌else◌}
use mockgatehub.Prelude.Int.{ℤ, pos}
use mockgatehub.Prelude.Result.{Result, ok, err}
use mockgatehub.Prelude.GoMap.{GoMap, lookup}

-- What the jobs use of `encoding/json` and `strconv`, for data of type `D`: `map[string]interface{}`.
-- `unmarshal` gives `ok none` for a text that leaves the map nil. The integers are Go's `int`; `atoi` is
-- the first of the two answers of `strconv.Atoi`, which for a text out of range is the nearest `int`,
-- and 0 for a text that is no number.
pub record JobCodec (D : Type 0) : Type 0 where
  pub empty : D
  pub marshal : D → Result String String
  pub unmarshal : String → Result String (Option D)
  pub itoa : ℤ → String
  pub atoi : String → ℤ
  pub atoi-itoa : (n : ℤ) → atoi (itoa n) ≡ n

pub record StreamJob (D : Type 0) : Type 0 where
  pub message_id : String
  pub job_id : String
  pub event_type : String
  pub user_id : String
  pub job_data : D  -- Data
  pub attempts : ℤ
  pub created_at : String
  pub last_error : String

-- `redis.XMessage`
pub record XMessage : Type 0 where
  pub id : String
  pub values : GoMap String

abbrev pub Fields : Type 0
Fields = GoMap String

-- `v, _ := msg.Values[k].(string)`
abbrev pub field : String → Fields → String
field k m = elim (lookup k m) [ none ↦ "" | some v ↦ v ]

abbrev last_error_field : String → Fields
last_error_field message = if message == "" then [] else ("last_error", message) ∷ []

-- The error of `strconv.Atoi` is dropped.
abbrev pub attempts_of : (String → ℤ) → Option String → ℤ
attempts_of atoi none = pos 0
attempts_of atoi (some text) = atoi text

module _ {D : Type 0} ⦃codec : JobCodec D⦄ where
  abbrev pub with_data : StreamJob D → String → Fields
  with_data job text =
      ("job_id", job.job_id)
      ∷ ("event_type", job.event_type)
      ∷ ("user_id", job.user_id)
      ∷ ("data", text)
      ∷ ("attempts", codec.itoa job.attempts)
      ∷ ("created_at", job.created_at)
      ∷ last_error_field job.last_error

  unfoldable pub to_stream_fields : StreamJob D → Result String Fields
  to_stream_fields job = elim (codec.marshal job.job_data) [
    | err e ↦ err ("failed to serialize job data: " ++ e)
    | ok text ↦ ok (with_data job text)
  ]

  -- the data of a message, the empty map where there is none
  abbrev pub data_of : Option String → Result String D
  data_of none = ok codec.empty
  data_of (some text) = if text == "" then ok codec.empty else elim (codec.unmarshal text) [
    | err e ↦ err e
    | ok none ↦ ok codec.empty
    | ok (some d) ↦ ok d
  ]

  unfoldable pub parse_stream_message : XMessage → Result String (StreamJob D)
  parse_stream_message msg =
      let job_id = field "job_id" msg.values in
      let event_type = field "event_type" msg.values in
      if job_id == "" || event_type == ""
      then err ("stream message " ++ msg.id ++ " missing required fields")
      else elim (data_of (lookup "data" msg.values)) [
        | err e ↦ err ("failed to parse data field in " ++ msg.id ++ ": " ++ e)
        | ok d ↦ ok (record {
          message_id = msg.id;
          job_id = job_id;
          event_type = event_type;
          user_id = field "user_id" msg.values;
          job_data = d;
          attempts = attempts_of codec.atoi (lookup "attempts" msg.values);
          created_at = field "created_at" msg.values;
          last_error = field "last_error" msg.values;
        })
      ]
