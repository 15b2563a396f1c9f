-- ===== src/Env/Action.antt =====
-- Go calls as actions: they read and change the world, and return a value, an error or a panic.
-- What was written before an error stays written.
use Prim.Native.String.{String}
use dwh.Base.{◌≡◌, refl, ap, ◌∙◌, ◌⊎◌, inl, inr, Bool, List, Option, none, some, ⊤, ◌<>◌}
use dwh.Common.Queue.{Publication}
use dwh.Database.Tables.{Tables}

-- The database, the publications that the broker has taken, the increments of the counter of
-- messages, by status and type, and whether the sender of the tasks was closed.
pub record World : Type 0 where
  pub tables : Tables
  pub queue : List Publication
  pub counters : List (String × String)
  pub sender_closed : Bool

-- A text made by `fmt.Errorf`, or the indexer's `errCursor`.
pub data GoError : Type 0 where
  errorf : String → GoError
  err_cursor : GoError

pub data Outcome {ℓ} (A : Type ℓ) : Type ℓ where
  ok : A → Outcome A
  err : GoError → Outcome A
  panic : Outcome A

abbrev pub Action : Type 0 → Type 0
Action A = World → Outcome A × World

-- The text of an error under the verb %v.
abbrev pub error_text : GoError → String
error_text (errorf s) = s
error_text err_cursor = "fatal: failed to update indexer cursor, state is inconsistent"

-- `%v` of `db.Error`.
abbrev pub option_text : Option String → String
option_text none = "<nil>"
option_text (some s) = s

module _ {A : Type 0} where
  abbrev pub pure : A → Action A
  pure a w = (ok a, w)

  abbrev pub fail : String → Action A
  fail s w = (err (errorf s), w)

  -- A nil pointer is dereferenced.
  abbrev pub deref : Option A → Action A
  deref none w = (panic, w)
  deref (some a) w = (ok a, w)

  -- `return fmt.Errorf("…: %v", err)` on an error.
  abbrev pub wrap : String → Action A → Action A
  wrap s m w =
      let (r, w') = m w in
      (elim r [ ok a ↦ ok a | err e ↦ err (errorf (s <> error_text e)) | panic ↦ panic ], w')

infixl 5 ◌>>=◌ ◌>>◌
abbrev pub ◌>>=◌ : {A B : Type 0} → Action A → (A → Action B) → Action B
◌>>=◌ m f w =
    let (r, w') = m w in elim r [ ok a ↦ f a w' | err e ↦ (err e, w') | panic ↦ (panic, w') ]

abbrev pub ◌>>◌ : {B : Type 0} → Action ⊤ → Action B → Action B
m >> k = m >>= λ _. k

abbrev pub fail_if : Option String → String → Action ⊤
fail_if none s w = (ok tt, w)
fail_if (some e) s w = (err (errorf (s <> e)), w)

-- The same with a message that does not show the error.
abbrev pub fail_as : Option String → String → Action ⊤
fail_as none s w = (ok tt, w)
fail_as (some _) s w = (err (errorf s), w)

pub Outcome-cases {ℓ} :
    {A : Type ℓ} (r : Outcome A)
    → ((a : A) × (r ≡ ok a)) ⊎ (((e : GoError) × (r ≡ err e)) ⊎ (r ≡ panic))
Outcome-cases (ok a) = inl (a, refl)
Outcome-cases (err e) = inr (inl (e, refl))
Outcome-cases panic = inr (inr refl)

-- What an action does after one that has a value.
pub bind_ok :
    {A B : Type 0} (m : Action A) (f : A → Action B) (w w' : World) (a : A) (r : Outcome B × World)
    → m w ≡ (ok a, w')
    → f a w' ≡ r
    → (m >>= f) w ≡ r
bind_ok m f w w' a r h k =
    ap (λ x. elim x.0 [ ok b ↦ f b x.1 | err e ↦ (err e, x.1) | panic ↦ (panic, x.1) ]) h ∙ k
