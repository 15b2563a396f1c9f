-- ===== src/ImageResizer/Stored.antt =====
-- The images that the storage has after `ProcessMessage` of x/imgresizer/resizer.go.
use Prim.Native.String.{String}
use mathlib.Core.Path.{subst}
use dwh.Base.{
  ◌≡◌, ◌≢◌, refl, ap, sym, ◌∙◌, true, Option, none, some, List, [], ◌∷◌, arith, inl, inr, All, ⊤,
}
use dwh.Common.Config.{Resolution}
use dwh.Common.Queue.{TaskInfo, object, Json, unmarshal}
use dwh.Env.Action.{ok, Outcome-cases}
use dwh.Env.Calls.{reply, Reply-cases}
use dwh.ImageStorage.{
  Bytes, ImageFile, Disk, plain, ImageCheckSumRequest, ImgStorage, key_digest, get_check_file,
}
use dwh.ImageResizer.{
  original, Host, zipped, ImageProcessingWorker, check_request, check_and_send_image,
  resize_and_send_raster_image, send_all,
}
use dwh.ImageStorage.Stored.{IsOrdinary}
use dwh.ImageResizer.Processing.{get_image, decode_image, process_message}
use dwh.ImageResizer.Service.{Network, answered, storage_service}
use dwh.ImageResizer.Sending.{checked_and_sent}

-- No two entries have the same key.
abbrev pub Distinct : (Resolution → String) → List Resolution → Type 0
Distinct k [] = ⊤
Distinct k (r ∷ rs) = All (λ q. k r ≢ k q) rs × Distinct k rs

module _ (H : Host) (G : dwh.ImageStorage.Host) where
  -- The service answers that it has an image in a resolution.
  abbrev pub IsThere : Bytes → Resolution → TaskInfo → Disk → Type 0
  IsThere ba r info d = get_check_file G (check_request H ba r info) d ≡ true

  -- It has the image that is made in a resolution.
  abbrev pub IsMade : ImageProcessingWorker → H.Image → TaskInfo → Disk → Resolution → Type 0
  IsMade irw image info d r =
      (ba : Bytes) × (H.encode (H.resize irw.interpolation_method r.width r.height image)
        ≡ reply ba)
      × IsThere ba r info d

  -- It has all that is to be made of an image: a vector image is kept as it is.
  abbrev pub IsComplete : ImageProcessingWorker → Bytes → Option H.Image → TaskInfo → Disk → Type 0
  IsComplete irw ba none info d = IsThere ba original info d
  IsComplete irw ba (some image) info d = All (IsMade irw image info d) irw.resolutions

  module _ (ims : ImgStorage) (N : Network)
      (zip : (ba z : Bytes) → H.gzip ba ≡ zipped z → G.gunzip z ≡ plain ba)
      (sums : (ba : Bytes) → H.md5 ba ≡ G.md5 ba)
      (mk : (owner : String) → G.mkdir_error owner ≡ none)
      (rm : (owner : String) → G.remove_path_error owner ≡ none)
      (wr : (owner : String) (f : ImageFile) → G.write_error owner f ≡ none)
      (old : (owner : String) (f : ImageFile) → G.remove_error owner f ≡ none)
      (net : (q : ImageCheckSumRequest) → N.check q ≡ answered) where
    abbrev digest : TaskInfo → Resolution → String
    digest info r = key_digest G info.owner info.token_id r.width r.height

    -- The images of other resolutions are neither made nor lost.
    abbrev KeepsOthers : TaskInfo → Resolution → Disk → Disk → Type 0
    KeepsOthers info r d d' =
        (ba : Bytes) (q : Resolution)
        → digest info r ≢ digest info q
        → get_check_file G (check_request H ba q info) d'
          ≡ get_check_file G (check_request H ba q info) d

    first_round :
        (irw : ImageProcessingWorker) (image : H.Image) (r : Resolution) (info : TaskInfo)
        (d : Disk)
        → let sent = resize_and_send_raster_image H (storage_service G ims N) irw image r info d in
          IsOrdinary G info.owner
          → sent.0 ≡ ok tt
          → IsMade irw image info sent.1 r × KeepsOthers info r d sent.1
    unfolding resize_and_send_raster_image
    first_round irw image r info d own h =
        let S = storage_service G ims N in
        elim (Reply-cases (H.encode (H.resize irw.interpolation_method r.width r.height image))) [
          | inl (e, encoded) ↦ absurd (ground (arith, encoded, h))
          | inr (ba, encoded) ↦
              let result : resize_and_send_raster_image H S irw image r info d
                  ≡ check_and_send_image H S ba r info d =
                ground (arith, encoded) in
              let (there, others) =
                checked_and_sent H G ims N zip sums mk rm wr old ba r info d own
                  (net (check_request H ba r info)) (ap (λ x. x.0) (sym result) ∙ h) in
              (
                (
                  ba,
                  encoded,
                  ap (λ x. get_check_file G (check_request H ba r info) x.1) result ∙ there,
                ),
                λ ba' q ne.
                    ap (λ x. get_check_file G (check_request H ba' q info) x.1) result
                    ∙ others ba' q ne,
              )
        ]

    -- A loop that ends without an error has gone through its first round, and the others.
    all_sent :
        (irw : ImageProcessingWorker) (image : H.Image) (r : Resolution) (rs : List Resolution)
        (info : TaskInfo) (d : Disk)
        → let S = storage_service G ims N in
          let sent = resize_and_send_raster_image H S irw image r info d in
          (send_all H S irw image (r ∷ rs) info d).0 ≡ ok tt
          → (sent.0 ≡ ok tt)
            × (send_all H S irw image (r ∷ rs) info d ≡ send_all H S irw image rs info sent.1)
    unfolding send_all
    all_sent irw image r rs info d h =
        let S = storage_service G ims N in
        let sent = resize_and_send_raster_image H S irw image r info d in
        elim (Outcome-cases sent.0) [
          | inl (_, done) ↦ (done, ground (arith, done))
          | inr (inl (e, failed)) ↦ absurd (ground (arith, failed, h))
          | inr (inr failed) ↦ absurd (ground (arith, failed, h))
        ]

    none_sent :
        (irw : ImageProcessingWorker) (image : H.Image) (info : TaskInfo) (d : Disk)
        → send_all H (storage_service G ims N) irw image [] info d ≡ (ok tt, d)
    unfolding send_all
    none_sent irw image info d = refl

    others_kept :
        (irw : ImageProcessingWorker) (image : H.Image) (rs : List Resolution) (info : TaskInfo)
        (d : Disk) (ba : Bytes) (q : Resolution)
        → IsOrdinary G info.owner
        → All (λ r. digest info q ≢ digest info r) rs
        → (send_all H (storage_service G ims N) irw image rs info d).0 ≡ ok tt
        → get_check_file G
            (check_request H ba q info)
            (send_all H (storage_service G ims N) irw image rs info d).1
          ≡ get_check_file G (check_request H ba q info) d
    others_kept irw image [] info d ba q own ne h =
        ap (λ x. get_check_file G (check_request H ba q info) x.1) (none_sent irw image info d)
    others_kept irw image (r ∷ rs) info d ba q own ne h =
        let S = storage_service G ims N in
        let sent = resize_and_send_raster_image H S irw image r info d in
        let ask = check_request H ba q info in
        let (done, result) = all_sent irw image r rs info d h in
        let (_, others) = first_round irw image r info d own done in
        ap (λ x. get_check_file G ask x.1) result
        ∙ (others_kept irw image rs info sent.1 ba q own ne.1 (ap (λ x. x.0) (sym result) ∙ h)
            ∙ others ba q (λ e. ne.0 (sym e)))

    every_round :
        (irw : ImageProcessingWorker) (image : H.Image) (rs : List Resolution) (info : TaskInfo)
        (d : Disk)
        → IsOrdinary G info.owner
        → Distinct (digest info) rs
        → (send_all H (storage_service G ims N) irw image rs info d).0 ≡ ok tt
        → All
            (IsMade irw image info (send_all H (storage_service G ims N) irw image rs info d).1)
            rs
    every_round irw image [] info d own distinct h = tt
    every_round irw image (r ∷ rs) info d own distinct h =
        let S = storage_service G ims N in
        let sent = resize_and_send_raster_image H S irw image r info d in
        let (done, result) = all_sent irw image r rs info d h in
        let ((ba, encoded, there), _) = first_round irw image r info d own done in
        let rest : (send_all H S irw image rs info sent.1).0 ≡ ok tt =
          ap (λ x. x.0) (sym result) ∙ h in
        (
          (
            ba,
            encoded,
            ap (λ x. get_check_file G (check_request H ba r info) x.1) result
                ∙ (others_kept irw image rs info sent.1 ba r own distinct.0 rest ∙ there),
          ),
          subst (λ x. All (IsMade irw image info x.1) rs) (sym result)
              (every_round irw image rs info sent.1 own distinct.1 rest),
        )

    -- After `ProcessMessage` returns without an error on a task that can be read, the image that
    -- the task names was fetched and decoded, and the storage has it, a vector image as it is and
    -- any other in each of the worker's resolutions, provided that the storage answers every
    -- check, that the task's owner is ordinary (`os.Stat` gives no error but that nothing is there
    -- for its path and the files in it, and filepath.Glob takes the path literally), that no other
    -- call of the storage's operating system fails, that it unzips what the worker zips and takes
    -- the same digests, and that no two resolutions share a key; requests to store may fail in any
    -- way.
    pub process_message_stores :
        (irw : ImageProcessingWorker) (o : Json) (d : Disk)
        → IsOrdinary G (unmarshal o).owner
        → Distinct (digest (unmarshal o)) irw.resolutions
        → (process_message H (storage_service G ims N) irw (object o) d).0 ≡ ok tt
        → (ba : Bytes) × (get_image H (unmarshal o).url ≡ reply ba)
          × (image : Option H.Image) × (decode_image H ba ≡ reply image)
          × IsComplete irw ba image
              (unmarshal o)
              (process_message H (storage_service G ims N) irw (object o) d).1
    unfolding process_message
    process_message_stores irw o d own distinct h =
        let S = storage_service G ims N in
        let info = unmarshal o in
        elim (Reply-cases (get_image H info.url)) [
          | inl (e, got) ↦ absurd (ground (arith, got, h))
          | inr (ba, got) ↦ elim (Reply-cases (decode_image H ba)) [
            | inl (e, decoded) ↦ absurd (ground (arith, got, decoded, h))
            | inr (some image, decoded) ↦
                let result : process_message H S irw (object o) d
                    ≡ send_all H S irw image irw.resolutions info d =
                  ground (arith, got, decoded) in
                (
                  ba,
                  got,
                  some image,
                  decoded,
                  subst (λ x. All (IsMade irw image info x.1) irw.resolutions) (sym result)
                      (every_round irw image irw.resolutions info d own distinct
                        (ap (λ x. x.0) (sym result) ∙ h)),
                )
            | inr (none, decoded) ↦
                let sent = check_and_send_image H S ba original info d in
                let result : (process_message H S irw (object o) d).1 ≡ sent.1 =
                  ground (arith, got, decoded) in
                let done : sent.0 ≡ ok tt = ground (arith, got, decoded, h) in
                let (there, _) =
                  checked_and_sent H G ims N zip sums mk rm wr old ba original info d own
                    (net (check_request H ba original info)) done in
                (
                  ba,
                  got,
                  none,
                  decoded,
                  ap (get_check_file G (check_request H ba original info)) result ∙ there,
                )
          ]
        ]
