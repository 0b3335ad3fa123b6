-- ===== src/Redis/Client.antt =====
-- The Redis client, JSON, and the steps that every method of redis.go is made of.
use Prim.Native.String.{◌++◌}
use mockgatehub.Prelude.{
  ℕ, String, ◌≡◌, Bool, Option, none, some, List, [], ◌∷◌, ◌==◌, is_some, if◌then◌else◌,
}
use mockgatehub.Prelude.Result.{Result, ok, err, map_err, Exec, ◌>>=◌, raise, lift, pure}

-- `holds` is the text that the server keeps under a key, `listed` the list under a key. A call that
-- fails may have been carried out or not, so nothing is said of the state after it. `get` answers
-- none where the client returns `redis.Nil`; a `set` with the time 0 never expires.
pub record RedisClient (R : Type 0) : Type 0 where
  pub get : String → R → Result String (Option String)
  pub set : String → String → ℕ → R → Result String (Unit {0}) × R
  pub exists : String → R → Result String Bool
  pub time_to_live : String → R → Result String ℕ
  pub incr : String → R → Result String ℕ × R
  pub s_add : String → String → R → Result String (Unit {0}) × R
  pub s_members : String → R → Result String (List String)
  pub l_push : String → String → R → Result String (Unit {0}) × R
  pub l_range : String → R → Result String (List String)  -- from 0 to -1
  pub z_add : String → ℕ → String → R → Result String (Unit {0}) × R
  pub z_range_from : String → ℕ → R → Result String (List String)  -- up to +inf
  pub z_rem : String → String → R → Result String (Unit {0}) × R
  pub holds : String → R → Option String
  pub listed : String → R → List String
  pub get-holds : (k : String) (r : R) (v : Option String) → get k r ≡ ok v → v ≡ holds k r
  pub exists-holds : (k : String) (r : R) (b : Bool) → exists k r ≡ ok b → b ≡ is_some (holds k r)
  pub holds-set :
      (k j v : String) (ttl : ℕ) (r : R)
      → (set k v ttl r).0 ≡ ok tt
      → holds j (set k v ttl r).1 ≡ (if k == j then some v else holds j r)
  pub holds-s_add :
      (k j member : String) (r : R)
      → (s_add k member r).0 ≡ ok tt
      → holds j (s_add k member r).1 ≡ holds j r
  pub l_range-listed :
      (k : String) (r : R) (members : List String) → l_range k r ≡ ok members → members ≡ listed k r
  pub listed-l_push :
      (k j member : String) (r : R)
      → (l_push k member r).0 ≡ ok tt
      → listed j (l_push k member r).1 ≡ (if k == j then member ∷ listed k r else listed j r)

-- The same client on numbers: `text_sum` is the text that the server puts in the place of a text, or of
-- none, when it adds a number to it.
pub record RedisFloats (R F : Type 0) ⦃client : RedisClient R⦄ : Type 0 where
  pub incr_by_float : String → F → R → Result String (Unit {0}) × R
  pub text_sum : Option String → F → String
  pub holds-incr_by_float :
      (k j : String) (x : F) (r : R)
      → (incr_by_float k x r).0 ≡ ok tt
      → client.holds j (incr_by_float k x r).1
        ≡ (if k == j then some (text_sum (client.holds k r) x) else client.holds j r)

-- `json.Marshal` and `json.Unmarshal` on one type
pub record Json (A : Type 0) : Type 0 where
  pub marshal : A → Result String String
  pub unmarshal : String → Result String A
  pub unmarshal-marshal : (a : A) (text : String) → marshal a ≡ ok text → unmarshal text ≡ ok a

abbrev pub Call : Type 0 → Type 0 → Type 0
Call R A = Exec R String A

module _ {R A : Type 0} where
  -- a call that only reads, or one that writes, with its error wrapped
  abbrev pub read : String → (R → Result String A) → Call R A
  read failed f r = (map_err (λ e. failed ++ e) (f r), r)

  abbrev pub write : String → (R → Result String A × R) → Call R A
  write failed f r = (map_err (λ e. failed ++ e) (f r).0, (f r).1)

  -- `for _, id := range ids { x, err := get(id); if err == nil { out = append(out, x) } }`
  unfoldable pub collect : (String → Call R A) → List String → R → List A
  collect get [] r = []
  collect get (id ∷ ids) r = elim (get id r).0 [
    | err _ ↦ collect get ids r
    | ok x ↦ x ∷ collect get ids r
  ]

module _ {R : Type 0} ⦃client : RedisClient R⦄ where
  -- `if err == redis.Nil { return errors.New(missing) }`
  abbrev pub get_text : String → String → String → Call R String
  get_text missing failed key = do
    found ← read failed (client.get key)
    elim found [ none ↦ raise missing | some text ↦ pure text ]

  abbrev pub exists_or : String → String → Call R Bool
  exists_or failed key = read failed (client.exists key)

  abbrev pub set_text : String → String → String → Call R (Unit {0})
  set_text failed key text = write failed (client.set key text 0)

module _ {R A : Type 0} ⦃json : Json A⦄ where
  abbrev pub encode : String → A → Call R String
  encode failed a = lift (map_err (λ e. failed ++ e) (json.marshal a))

  abbrev pub decode : String → String → Call R A
  decode failed text = lift (map_err (λ e. failed ++ e) (json.unmarshal text))

module _ {R A : Type 0} ⦃client : RedisClient R⦄ ⦃json : Json A⦄ where
  -- the object under a key, as every `Get` method of the file reads it
  abbrev pub load : String → String → Call R A
  load what key = do
    text ← get_text (what ++ " not found") ("failed to get " ++ what ++ ": ") key
    decode ("failed to unmarshal " ++ what ++ ": ") text

  -- the object written under a key
  abbrev pub save : String → String → String → A → Call R (Unit {0})
  save what verb key a = do
    text ← encode ("failed to marshal " ++ what ++ ": ") a
    set_text ("failed to " ++ verb ++ " " ++ what ++ ": ") key text
