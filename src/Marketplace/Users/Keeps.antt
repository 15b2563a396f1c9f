-- ===== src/Marketplace/Users/Keeps.antt =====
-- The tokens under the creation of users.
use dwh.Base.{◌≡◌, refl, List, [], ◌∷◌, arith}
use dwh.Common.Types.{AccAddress}
use dwh.Database.Frame.{create_user-nfts, update_sequence-nfts}
use dwh.Database.Gorm.{IsLawful}
use dwh.Env.Action.{World}
use dwh.Env.Calls.{Env, Db}
use dwh.Marketplace.Users.{find_or_create_user, create_users}
use dwh.Marketplace.Users.Cases.{find_or_create_user_cases}

module _ ⦃E : Env⦄ (L : IsLawful E.gorm) where
  pub find_or_create_user-nfts :
      (addr : AccAddress) (db : Db) (w : World)
      → (find_or_create_user addr db w).1.tables.nfts ≡ w.tables.nfts
  find_or_create_user-nfts addr db w =
      find_or_create_user_cases addr db w (λ r t. t.nfts ≡ w.tables.nfts) (λ s. refl)
        (λ acc _ _ _. create_user-nfts L db w.tables _)
        (λ acc x s _. create_user-nfts L db w.tables _)
        (λ acc u _ _. update_sequence-nfts L db w.tables _ _)
        (λ acc u x s _. update_sequence-nfts L db w.tables _ _)

  pub create_users-nfts :
      (addrs : List AccAddress) (db : Db) (w : World)
      → (create_users addrs db w).1.tables.nfts ≡ w.tables.nfts
  unfolding create_users
  create_users-nfts [] db w = refl
  create_users-nfts (a ∷ addrs) db w = ground (
    arith,
    find_or_create_user-nfts a db w,
    create_users-nfts addrs db (find_or_create_user a db w).1,
  )
