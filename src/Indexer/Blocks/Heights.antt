-- ===== src/Indexer/Blocks/Heights.antt =====
-- `Start` of x/indexer/indexer.go over the heights of the chain.
use Prim.Native.String.{String}
use mathlib.Core.Path.{subst}
use dwh.Base.{ap, sym, ◌∙◌, ℕ, suc, ◌+◌, ◌%◌, ◌<◌, ◌≡◌, List, [], ◌∷◌, arith, inl, inr}
use dwh.Env.Action.{ok}
use dwh.Env.Calls.{Env, reply, failure, Reply-cases}
use dwh.Indexer.Cursor.{next, word, marshal}
use dwh.Indexer.State.{IsStore, Node, TxBytes, Indexer}
use dwh.Indexer.Blocks.{process_txs, Ask, running, start}
use dwh.Indexer.Blocks.Moves.{process_txs_advances}

module _ ⦃E : Env⦄ ⦃N : Node⦄ where
  -- One block at a time, `n` of them: the node is asked for the height of the cursor until it has
  -- the block, and then for the next height. Each block is processed on the state that the last
  -- one left, and the cursor of the state database is the one in memory.
  pub data Follows : ℕ → List Ask → Indexer → Indexer → Type 0 where
    here : {s : Indexer} → Follows 0 [] s s
    missing :
        {n : ℕ} {ask : Ask} {asks : List Ask} {s t : Indexer} {e : String}
        → ask s.cursor.height ≡ failure e
        → Follows n asks s t
        → Follows n (ask ∷ asks) s t
    processed :
        {n : ℕ} {ask : Ask} {asks : List Ask} {s t : Indexer} {txs : List TxBytes}
        → ask s.cursor.height ≡ reply txs
        → (process_txs txs s).0 ≡ ok tt
        → (process_txs txs s).1.cursor ≡ next s.cursor
        → N.get (process_txs txs s).1.store ≡ reply (marshal (next s.cursor))
        → Follows n asks (process_txs txs s).1 t
        → Follows (suc n) (ask ∷ asks) s t

  start_step :
      (ask : Ask) (asks : List Ask) (s : Indexer) (txs : List TxBytes)
      → ask s.cursor.height ≡ reply txs
      → (start (ask ∷ asks) s).0 ≡ running
      → ((process_txs txs s).0 ≡ ok tt) × (start (ask ∷ asks) s ≡ start asks (process_txs txs s).1)
  unfolding start
  start_step ask asks s txs h k = ground arith

  start_wait :
      (ask : Ask) (asks : List Ask) (s : Indexer) (e : String)
      → ask s.cursor.height ≡ failure e
      → (start (ask ∷ asks) s).0 ≡ running
      → start (ask ∷ asks) s ≡ start asks s
  unfolding start
  start_wait ask asks s e h k = ground arith

  -- With a state database that keeps what is put there, as long as `Start` is running, it has
  -- followed the chain from the height of the cursor on: it has skipped no height, has asked again
  -- for each one until the node had its block, and has processed each block on the state that the
  -- last one left.
  pub start-Follows :
      (L : IsStore N) (asks : List Ask) (s : Indexer)
      → (start asks s).0 ≡ running
      → (n : ℕ) × Follows n asks s (start asks s).1
  unfolding start
  start-Follows L [] s h = (0, here)
  start-Follows L (ask ∷ asks) s h = elim (Reply-cases (ask s.cursor.height)) [
    | inl (e, k) ↦
        let same = start_wait ask asks s e k h in
        let (n, f) = start-Follows L asks s (ap (λ r. r.0) (sym same) ∙ h) in
        (n, subst (λ r. Follows n (ask ∷ asks) s r.1) (sym same) (missing k f))
    | inr (txs, k) ↦
        let (done, same) = start_step ask asks s txs k h in
        let s' = (process_txs txs s).1 in
        let (moved, there, stored) = process_txs_advances L txs s done in
        let (n, f) = start-Follows L asks s' (ap (λ r. r.0) (sym same) ∙ h) in
        (
          suc n,
          subst (λ r. Follows (suc n) (ask ∷ asks) s r.1) (sym same)
              (processed k done moved stored f),
        )
  ]

  -- Over `n` blocks the height of the cursor grows by `n`, as an int64.
  pub Follows-height :
      (n : ℕ) (asks : List Ask) (s t : Indexer)
      → Follows n asks s t
      → s.cursor.height < word
      → t.cursor.height ≡ (s.cursor.height + n) % word
  Follows-height _ _ s _ here h = omega arith
  Follows-height n _ s t (missing k f) h = Follows-height n _ s t f h
  Follows-height (suc n) _ s t (processed {txs = txs} k done moved stored f) h =
      let s' = (process_txs txs s).1 in
      let at : s'.cursor.height ≡ (s.cursor.height + 1) % word = ap (λ c. c.height) moved in
      omega (arith, at, Follows-height n _ s' t f (omega (arith, at)))
