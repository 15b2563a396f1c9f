-- ===== src/Marketplace/Users/Frame.antt =====
-- The counters and the queue under the creation of users.
use dwh.Base.{◌≡◌, refl, List, [], ◌∷◌, arith}
use dwh.Common.Types.{AccAddress}
use dwh.Env.Action.{World}
use dwh.Env.Calls.{Env, Db}
use dwh.Marketplace.Users.{find_or_create_user, create_users}

module _ ⦃E : Env⦄ (addr : AccAddress) (db : Db) (w : World) where
  pub find_or_create_user-counters : (find_or_create_user addr db w).1.counters ≡ w.counters
  unfolding find_or_create_user
  find_or_create_user-counters = ground arith

  pub find_or_create_user-queue : (find_or_create_user addr db w).1.queue ≡ w.queue
  unfolding find_or_create_user
  find_or_create_user-queue = ground arith

module _ ⦃E : Env⦄ (db : Db) where
  pub create_users-counters :
      (addrs : List AccAddress) (w : World) → (create_users addrs db w).1.counters ≡ w.counters
  unfolding create_users
  create_users-counters [] w = refl
  create_users-counters (a ∷ addrs) w = ground (
    arith,
    find_or_create_user-counters a db w,
    create_users-counters addrs (find_or_create_user a db w).1,
  )

  pub create_users-queue :
      (addrs : List AccAddress) (w : World) → (create_users addrs db w).1.queue ≡ w.queue
  unfolding create_users
  create_users-queue [] w = refl
  create_users-queue (a ∷ addrs) w = ground (
    arith,
    find_or_create_user-queue a db w,
    create_users-queue addrs (find_or_create_user a db w).1,
  )
