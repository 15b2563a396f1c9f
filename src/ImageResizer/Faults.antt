-- ===== src/ImageResizer/Faults.antt =====
-- `checkAndSendImage` of x/imgresizer/resizer.go where the check of an image is not answered.
use Prim.Native.String.{String}
use dwh.Base.{◌≡◌, ap, ◌∙◌, true, false, none, arith, eq_refl}
use dwh.Common.Config.{Resolution}
use dwh.Common.Queue.{TaskInfo}
use dwh.Env.Action.{ok}
use dwh.ImageStorage.{
  Bytes, ImageFile, Disk, plain, ImgStorage, key_digest, store_img, get_check_file,
}
use dwh.ImageStorage.Handlers.{store_handler}
use dwh.ImageStorage.Stored.{IsOrdinary, store_img-ok}
use dwh.ImageResizer.{
  Host, zipped, check_request, store_request, check_img_existence, send_image, check_and_send_image,
}
use dwh.ImageResizer.Service.{Network, answered, refused, storage_service}
use dwh.ImageResizer.Sending.{sent_check}

module _ (H : Host) (G : dwh.ImageStorage.Host) (ims : ImgStorage) (N : Network) where
  unchecked :
      (ba z : Bytes) (r : Resolution) (info : TaskInfo) (d : Disk) (e : String)
      → N.check (check_request H ba r info) ≡ refused e
      → N.store (store_request H z r info) ≡ answered
      → H.gzip ba ≡ zipped z
      → (store_img G ims (store_request H z r info) d).0 ≡ ok tt
      → let S = storage_service G ims N in
        ((send_image H S ba r info d).0 ≡ ok tt)
        × (check_and_send_image H S ba r info d ≡ (ok tt, (send_image H S ba r info d).1))
  unfolding check_and_send_image check_img_existence send_image store_handler
  unchecked ba z r info d e net store g stored = ground (arith, net, store, g, stored)

  -- Where the check of an image does not reach the storage and the request to store it is
  -- answered, `checkAndSendImage` returns without an error, and an image that the storage had
  -- before is gone, provided that the task's owner is ordinary (`os.Stat` gives no error but that
  -- nothing is there for its path and the files in it, and filepath.Glob takes the path
  -- literally), that no other call of the storage's operating system fails, that the storage
  -- unzips what the worker zips, and that it takes the same digests.
  pub resend_removes :
      (ba z : Bytes) (r : Resolution) (info : TaskInfo) (d : Disk) (e : String)
      → ((b y : Bytes) → H.gzip b ≡ zipped y → G.gunzip y ≡ plain b)
      → ((b : Bytes) → H.md5 b ≡ G.md5 b)
      → ((owner : String) → G.mkdir_error owner ≡ none)
      → ((owner : String) → G.remove_path_error owner ≡ none)
      → ((owner : String) (f : ImageFile) → G.write_error owner f ≡ none)
      → ((owner : String) (f : ImageFile) → G.remove_error owner f ≡ none)
      → IsOrdinary G info.owner
      → H.gzip ba ≡ zipped z
      → N.check (check_request H ba r info) ≡ refused e
      → N.store (store_request H z r info) ≡ answered
      → get_check_file G (check_request H ba r info) d ≡ true
      → let sent = check_and_send_image H (storage_service G ims N) ba r info d in
        (sent.0 ≡ ok tt) × (get_check_file G (check_request H ba r info) sent.1 ≡ false)
  resend_removes ba z r info d e zip sums mk rm wr old own g net store there =
      let ask = check_request H ba r info in
      let stored =
        store_img-ok G ims (store_request H z r info) ba d own (zip ba z g) (mk info.owner)
          (rm info.owner) (wr info.owner) (old info.owner) in
      let (done, result) = unchecked ba z r info d e net store g stored in
      let name = key_digest G info.owner info.token_id r.width r.height in
      (
        ap (λ x. x.0) result,
        ap (λ x. get_check_file G ask x.1) result
            ∙ ground (
              arith,
              sent_check H G ims N zip sums mk rm wr old ba r info ask d own own done,
              there,
              sums ba,
              eq_refl info.owner,
              eq_refl name,
              eq_refl (G.hex (G.md5 ba)),
            ),
      )
