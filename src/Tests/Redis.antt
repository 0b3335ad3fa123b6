-- ===== src/Tests/Redis.antt =====
-- Instances for the examples: a stream that is the list of what was added and not yet read, and a
-- codec in which the data is its own text and a number is a sign and marks.
use Prim.Native.Char.{code}
use mockgatehub.Prelude.{
  ℕ, zero, suc, String, ◌≡◌, ap, refl, subst, ◌⊎◌, inl, inr, Option, none, some, List, [], ◌∷◌,
  ◌++◌, All, nat_beq, if◌then◌else◌, map, take, drop,
}
use mockgatehub.Prelude.Int.{ℤ, pos, negsuc}
use mockgatehub.Prelude.Result.{Result, ok}
use mockgatehub.Webhook.Job.{JobCodec, Fields, XMessage}
use mockgatehub.Webhook.Queue.{RedisStream}

abbrev pub Occurs : Fields → List Fields → Type 0
Occurs f [] = ⊥
Occurs f (g ∷ r) = (f ≡ g) ⊎ Occurs f r

abbrev message_of : Fields → XMessage
message_of f = record { id = "1-0"; values = f }

pub last_one : (f g : Fields) (r : List Fields) → Occurs g (r ++ f ∷ []) → (g ≡ f) ⊎ Occurs g r
last_one f g [] w = w
last_one f g (k ∷ r) (inl e) = inr (inl e)
last_one f g (k ∷ r) (inr w) = elim (last_one f g r w) [ inl e ↦ inl e | inr v ↦ inr (inr v) ]

pub dropped : (n : ℕ) (g : Fields) (r : List Fields) → Occurs g (drop n r) → Occurs g r
dropped zero g r w = w
dropped (suc n) g [] w = w
dropped (suc n) g (k ∷ r) w = inr (dropped n g r w)

taken_in :
    (n : ℕ) (r all : List Fields)
    → ((g : Fields) → Occurs g r → Occurs g all)
    → All (λ (m : XMessage). Occurs m.values all) (map message_of (take n r))
taken_in zero r all h = tt
taken_in (suc n) [] all h = tt
taken_in (suc n) (k ∷ r) all h = (h k (inl refl), taken_in n r all (λ g w. h g (inr w)))

pub taken :
    (n : ℕ) (r : List Fields) (messages : List XMessage)
    → ◌≡◌ {A = Result String (List XMessage)} (ok (map message_of (take n r))) (ok messages)
    → All (λ (m : XMessage). Occurs m.values r) messages
taken n r messages h =
    let same : map message_of (take n r) ≡ messages = cc in
    subst (All (λ (m : XMessage). Occurs m.values r)) same (taken_in n r r (λ g w. w))

pub none_claimed :
    (r : List Fields) (messages : List XMessage)
    → ◌≡◌ {A = Result String (List XMessage)} (ok []) (ok messages)
    → All (λ (m : XMessage). Occurs m.values r) messages
none_claimed r messages h =
    let same : [] ≡ messages = cc in subst (All (λ (m : XMessage). Occurs m.values r)) same tt

instance unfoldable pub stream : RedisStream (List Fields)
stream = record {
  x_add = λ f r. (ok tt, r ++ f ∷ []);
  x_trim = λ r. r;
  x_ack = λ id r. (ok tt, r);
  x_read_group = λ n r. (ok (map message_of (take n r)), drop n r);
  x_auto_claim = λ n r. (ok [], r);
  WasAdded = Occurs;
  read_added = taken;
  claim_added = λ n r messages h. none_claimed r messages h;
  added = last_one;
  trimmed = λ g r w. w;
  acked = λ id g r w. w;
  was_read = dropped;
  was_claimed = λ n g r w. w;
}

marks : ℕ → String
marks zero = String.[]
marks (suc n) = String.◌∷◌ "i" (marks n)

count : String → ℕ
count String.[] = zero
count (String.◌∷◌ c s) = suc (count s)

count-marks : (n : ℕ) → count (marks n) ≡ n
unfolding count marks
count-marks zero = refl
count-marks (suc n) = ap suc (count-marks n)

pub show_ℤ : ℤ → String
show_ℤ (pos n) = String.◌∷◌ "+" (marks n)
show_ℤ (negsuc n) = String.◌∷◌ "-" (marks n)

pub read_ℤ : String → Option ℤ
read_ℤ String.[] = none
read_ℤ (String.◌∷◌ c s) =
    if nat_beq (code c) b'+' then some (pos (count s)) else some (negsuc (count s))

pub read-show : (n : ℤ) → read_ℤ (show_ℤ n) ≡ some n
unfolding read_ℤ show_ℤ
read-show (pos n) = ap (λ k. some (pos k)) (count-marks n)
read-show (negsuc n) = ap (λ k. some (negsuc k)) (count-marks n)

abbrev pub int_or_zero : Option ℤ → ℤ
int_or_zero none = pos 0
int_or_zero (some n) = n

instance unfoldable pub codec : JobCodec String
codec = record {
  empty = "";
  marshal = λ d. ok d;
  unmarshal = λ t. ok (some t);
  itoa = show_ℤ;
  atoi = λ t. int_or_zero (read_ℤ t);
  atoi-itoa = λ n. rw (read-show n) refl;
}
