-- ===== src/Indexer/Messages/Rows.antt =====
-- The parts of `processMsg` of x/indexer/indexer.go and the row of the messages table that they make.
use Prim.Native.String.{String}
use mathlib.Core.Path.{subst}
use dwh.Base.{
  Bool-cases, str_eq, ℕ, ◌≡◌, refl, ap, sym, ◌∙◌, inl, inr, Bool, true, false, Option, none, some,
  List, [], ◌∷◌, ◌++◌, All, arith, ⊤, if◌then◌else◌, Option-cases,
}
use dwh.Common.Rows.{Message}
use dwh.Database.Tables.{Row, Stamp, stamped}
use dwh.Database.Gorm.{IsLawful, IsSticky}
use dwh.Env.Action.{World, Outcome, ok, err, panic, errorf, err_cursor}
use dwh.Env.Calls.{Env, Db}
use dwh.Marketplace.Messages.{Msg, Event}
use dwh.Indexer.State.{MsgHandler, Node, Indexer, find_handler, update_cursor}
use dwh.Indexer.Messages.{conclude, attempt, store_message}

abbrev pub is_errorf : Outcome ⊤ → Bool
is_errorf (ok _) = false
is_errorf (err (errorf _)) = true
is_errorf (err err_cursor) = false
is_errorf panic = false

abbrev pub error_of : Outcome ⊤ → String
error_of (ok _) = ""
error_of (err (errorf text)) = text
error_of (err err_cursor) = ""
error_of panic = ""

module _ ⦃E : Env⦄ where
  -- A handler that writes neither transactions nor messages.
  abbrev pub KeepsLog : MsgHandler → Type 0
  KeepsLog h =
      (msg : Msg) (events : List Event) (db : Db) (w : World)
      → (((h.handle msg events db w).1).tables.messages ≡ w.tables.messages)
        × (((h.handle msg events db w).1).tables.txes ≡ w.tables.txes)

  abbrev pub AllKeepLog : List (String × MsgHandler) → Type 0
  AllKeepLog = All (λ p. KeepsLog p.1)

  -- A handle that is there and has no error.
  abbrev pub Clean : Option Db → Type 0
  Clean o = (db : Db) × (o ≡ some db) × (E.gorm.error db ≡ none)

module _ ⦃E : Env⦄ ⦃N : Node⦄ where
  find_handler-KeepsLog :
      (route : String) (l : List (String × MsgHandler)) (h : MsgHandler)
      → AllKeepLog l
      → find_handler route l ≡ some h
      → KeepsLog h
  find_handler-KeepsLog route [] h k e = cc
  find_handler-KeepsLog route ((key, j) ∷ l) h k e = elim (Bool-cases (str_eq key route)) [
    | inl same ↦
        let found : some j ≡ some h =
          sym (ap (λ b. if b then some j else find_handler route l) same) ∙ e in
        let equal : j ≡ h = ground arith in subst KeepsLog equal k.0
    | inr other ↦ find_handler-KeepsLog route l h k.1 (rw other at e)
  ]

  pub conclude-frame :
      (tx_index msg_id : ℕ) (msg : Msg) (r : Outcome ⊤ × Indexer)
      → ((conclude tx_index msg_id msg r).1.world ≡ r.1.world)
        × ((conclude tx_index msg_id msg r).1.handlers ≡ r.1.handlers)
        × ((conclude tx_index msg_id msg r).1.db ≡ r.1.db)
  unfolding conclude update_cursor
  conclude-frame tx_index msg_id msg (ok _, s) = ground arith
  conclude-frame tx_index msg_id msg (err e, s) = (refl, refl, refl)
  conclude-frame tx_index msg_id msg (panic, s) = (refl, refl, refl)

  -- Up to the deferred function, a message changes neither the handlers nor the handle, nor, with
  -- such handlers, the messages.
  pub attempt-frame :
      (tx_index msg_id : ℕ) (msg : Msg) (events : List Event) (s : Indexer)
      → AllKeepLog s.handlers
      → ((attempt tx_index msg_id msg events s).1.world.tables.messages ≡ s.world.tables.messages)
        × ((attempt tx_index msg_id msg events s).1.handlers ≡ s.handlers)
        × ((attempt tx_index msg_id msg events s).1.db ≡ s.db)
  unfolding attempt
  attempt-frame tx_index msg_id msg events s k =
      elim (Option-cases (find_handler msg.route s.handlers)) [
        | inl e ↦ ground arith
        | inr (h, e) ↦
            let keeps = find_handler-KeepsLog msg.route s.handlers h k e in
            elim (Option-cases s.db) [
              | inl d ↦ ground (arith, conclude-frame tx_index msg_id msg (panic, s))
              | inr (db, d) ↦
                  let (r, w) = h.handle msg events db s.world in
                  ground (
                    arith,
                    conclude-frame tx_index msg_id msg (r, record s { world = w }),
                    keeps msg events db s.world,
                  )
            ]
      ]

  conclude-verdict :
      (tx_index msg_id : ℕ) (msg : Msg) (r : Outcome ⊤ × Indexer)
      → ((conclude tx_index msg_id msg r).0.failed
          ≡ is_errorf (conclude tx_index msg_id msg r).0.result)
        × ((conclude tx_index msg_id msg r).0.err_msg
            ≡ error_of (conclude tx_index msg_id msg r).0.result)
  unfolding conclude update_cursor
  conclude-verdict tx_index msg_id msg (ok _, s) = ground arith
  conclude-verdict tx_index msg_id msg (err e, s) = (refl, refl)
  conclude-verdict tx_index msg_id msg (panic, s) = (refl, refl)

  pub attempt-verdict :
      (tx_index msg_id : ℕ) (msg : Msg) (events : List Event) (s : Indexer)
      → ((attempt tx_index msg_id msg events s).0.failed
          ≡ is_errorf (attempt tx_index msg_id msg events s).0.result)
        × ((attempt tx_index msg_id msg events s).0.err_msg
            ≡ error_of (attempt tx_index msg_id msg events s).0.result)
  unfolding attempt
  attempt-verdict tx_index msg_id msg events s =
      elim (Option-cases (find_handler msg.route s.handlers)) [
        | inl e ↦ ground arith
        | inr (h, e) ↦ rw (e, attempt) (conclude-verdict tx_index msg_id msg _)
      ]

  -- The row that is added has been given a key and a time.
  abbrev pub Adds : Message → Indexer → Indexer → Type 0
  Adds row s t =
      (i : Stamp) × (t.world.tables.messages
        ≡ s.world.tables.messages ++ (record row { model = stamped i } ∷ []))

  pub store_message_done :
      (L : IsLawful E.gorm) (K : IsSticky E.gorm) (row : Message) (s : Indexer)
      → Clean (store_message row s).1.db
      → ((store_message row s).0 ≡ ok tt) × Clean s.db × Adds row s (store_message row s).1
  unfolding store_message
  store_message_done L K row s (db', there, clean) = elim (Option-cases s.db) [
    | inl e ↦ absurd (ground arith)
    | inr (db, e) ↦
        let same : (E.gorm.create (Row.message row) db s.world.tables).0 ≡ db' = ground arith in
        let fine = ap E.gorm.error same ∙ clean in
        let (i, _, done) = L.create_done (Row.message row) db s.world.tables fine in
        (
          ground arith,
          elim (Option-cases (E.gorm.error db)) [
            | inl free ↦ (db, e, free)
            | inr (x, bad) ↦
                let stuck = K.create_sticky (Row.message row) db s.world.tables x bad in
                absurd (ground (arith, fine, stuck))
          ],
          (i, ground (arith, done)),
        )
  ]
