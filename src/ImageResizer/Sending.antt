-- ===== src/ImageResizer/Sending.antt =====
-- One image of x/imgresizer/resizer.go on its way to the storage: the check, and the sending.
use Prim.Native.String.{String}
use dwh.Base.{
  ◌≡◌, ◌≢◌, refl, ap, ◌∙◌, Bool, true, false, not, ◌&&◌, none, arith, str_eq, eq_iff, eq_refl,
  if◌then◌else◌, inl, inr, Bool-cases,
}
use dwh.Common.Config.{Resolution}
use dwh.Common.Queue.{TaskInfo}
use dwh.Env.Action.{ok}
use dwh.Env.Calls.{reply}
use dwh.ImageStorage.{
  Bytes, ImageFile, Disk, plain, ImageCheckSumRequest, ImgStorage, key_digest, store_img,
  get_check_file,
}
use dwh.ImageStorage.Handlers.{
  marshal_response, unmarshal_response, store_handler, get_check_sum_handler,
}
use dwh.ImageStorage.Stored.{IsOrdinary, check_after_store, store_img-ok}
use dwh.ImageResizer.{
  Host, Gzip, zipped, bad_write, bad_flush, bad_close, check_request, store_request,
  check_img_existence, send_image, check_and_send_image,
}
use dwh.ImageResizer.Service.{Network, answered, storage_service}

pub unmarshal-marshal_response :
    (b : Bool)
    → (unmarshal_response (marshal_response (record { image_exists = b }))).image_exists ≡ b
unfolding marshal_response unmarshal_response
unmarshal-marshal_response true = refl
unmarshal-marshal_response false = refl

module _ (H : Host) (G : dwh.ImageStorage.Host) (ims : ImgStorage) (N : Network) where
  check_answered :
      (ba : Bytes) (r : Resolution) (info : TaskInfo) (d : Disk)
      → N.check (check_request H ba r info) ≡ answered
      → check_img_existence H (storage_service G ims N) ba r info d
        ≡ (reply (get_check_file G (check_request H ba r info) d), d)
  unfolding check_img_existence get_check_sum_handler
  check_answered ba r info d h = rw h (
      ap (λ b. (reply b, d))
        (unmarshal-marshal_response (get_check_file G (check_request H ba r info) d)))

  sent_zip :
      (ba : Bytes) (r : Resolution) (info : TaskInfo) (d : Disk) (g : Gzip)
      → H.gzip ba ≡ g
      → (send_image H (storage_service G ims N) ba r info d).0 ≡ ok tt
      → (z : Bytes) × (H.gzip ba ≡ zipped z)
  unfolding send_image
  sent_zip ba r info d (bad_write e) g h = absurd (ground (arith, g, h))
  sent_zip ba r info d (bad_flush e) g h = absurd (ground (arith, g, h))
  sent_zip ba r info d (bad_close e) g h = absurd (ground (arith, g, h))
  sent_zip ba r info d (zipped z) g h = (z, g)

  -- An image that is sent without an error has been answered.
  sent_disk :
      (ba z : Bytes) (r : Resolution) (info : TaskInfo) (d : Disk)
      → H.gzip ba ≡ zipped z
      → (store_img G ims (store_request H z r info) d).0 ≡ ok tt
      → (send_image H (storage_service G ims N) ba r info d).0 ≡ ok tt
      → (send_image H (storage_service G ims N) ba r info d).1
        ≡ (store_img G ims (store_request H z r info) d).1
  unfolding send_image store_handler
  sent_disk ba z r info d g stored h = ground (arith, g, stored, h)

  module _ (zip : (ba z : Bytes) → H.gzip ba ≡ zipped z → G.gunzip z ≡ plain ba)
      (sums : (ba : Bytes) → H.md5 ba ≡ G.md5 ba)
      (mk : (owner : String) → G.mkdir_error owner ≡ none)
      (rm : (owner : String) → G.remove_path_error owner ≡ none)
      (wr : (owner : String) (f : ImageFile) → G.write_error owner f ≡ none)
      (old : (owner : String) (f : ImageFile) → G.remove_error owner f ≡ none) where
    -- What the service answers to a check after an image was sent.
    pub sent_check :
        (ba : Bytes) (r : Resolution) (info : TaskInfo) (ask : ImageCheckSumRequest) (d : Disk)
        → IsOrdinary G info.owner
        → IsOrdinary G ask.owner
        → (send_image H (storage_service G ims N) ba r info d).0 ≡ ok tt
        → get_check_file G ask (send_image H (storage_service G ims N) ba r info d).1 ≡ (
            if str_eq ask.owner info.owner
              && str_eq
                  (key_digest G info.owner info.token_id r.width r.height)
                  (key_digest G ask.owner ask.token_id ask.width ask.height)
            then str_eq (G.hex (G.md5 ba)) (G.hex ask.md5_sum) && not (get_check_file G ask d)
            else get_check_file G ask d)
    sent_check ba r info ask d own asked h =
        let (z, g) = sent_zip ba r info d (H.gzip ba) refl h in
        let req = store_request H z r info in
        let stored =
          store_img-ok G ims req ba d own (zip ba z g) (mk info.owner) (rm info.owner)
            (wr info.owner) (old info.owner) in
        ap (get_check_file G ask) (sent_disk ba z r info d g stored h)
        ∙ check_after_store G ims req ask ba d own asked (zip ba z g) stored

    abbrev pub key : TaskInfo → Resolution → String
    key info r = key_digest G info.owner info.token_id r.width r.height

    -- After an image is checked and sent without an error it is there, and checks on other keys are
    -- answered as before.
    pub checked_and_sent :
        (ba : Bytes) (r : Resolution) (info : TaskInfo) (d : Disk)
        → IsOrdinary G info.owner
        → N.check (check_request H ba r info) ≡ answered
        → (check_and_send_image H (storage_service G ims N) ba r info d).0 ≡ ok tt
        → let d' = (check_and_send_image H (storage_service G ims N) ba r info d).1 in
          (get_check_file G (check_request H ba r info) d' ≡ true)
          × ((ba' : Bytes) (r' : Resolution)
              → key info r ≢ key info r'
              → get_check_file G (check_request H ba' r' info) d'
                ≡ get_check_file G (check_request H ba' r' info) d)
    unfolding check_and_send_image
    checked_and_sent ba r info d own net h =
        let S = storage_service G ims N in
        let ask = check_request H ba r info in
        let seen = check_answered ba r info d net in
        elim (Bool-cases (get_check_file G ask d)) [
          | inl there ↦
              let result : check_and_send_image H S ba r info d ≡ (ok tt, d) =
                ground (arith, seen, there) in
              (
                ap (λ x. get_check_file G ask x.1) result ∙ there,
                λ ba' r' ne. ap (λ x. get_check_file G (check_request H ba' r' info) x.1) result,
              )
          | inr missing ↦
              let sent = send_image H S ba r info d in
              let same : (check_and_send_image H S ba r info d).1 ≡ sent.1 =
                ground (arith, seen, missing) in
              let done : sent.0 ≡ ok tt = ground (arith, seen, missing, h) in
              (
                ap (get_check_file G ask) same
                    ∙ ground (
                      arith,
                      sent_check ba r info ask d own own done,
                      missing,
                      sums ba,
                      eq_refl info.owner,
                      eq_refl (key info r),
                      eq_refl (G.hex (G.md5 ba)),
                    ),
                λ ba' r' ne.
                    ap (get_check_file G (check_request H ba' r' info)) same
                    ∙ ground (
                      arith,
                      sent_check ba r info (check_request H ba' r' info) d own own done,
                      eq_iff (key info r) (key info r'),
                      ne,
                    ),
              )
        ]
