-- ===== src/ImageResizer.antt =====
-- x/imgresizer/resizer.go: the worker that fetches the image of a token, makes it in each
-- resolution, and sends to the image storage what is not there yet. The storage is the interface
-- `StorageService`; ImageResizer/Service.antt fills it with the handlers of ImageStorage.
pub mod Processing
pub mod Service
pub mod Sending
pub mod Stored
pub mod Faults
pub mod Lifecycle
use Prim.Native.String.{String}
use dwh.Base.{ℕ, Bool, List, [], ◌∷◌, ⊤, ◌<>◌, ◌==◌, if◌then◌else◌}
use dwh.Common.Config.{Resolution}
use dwh.Common.Queue.{TaskInfo, unmarshal}
use dwh.Env.Action.{Outcome, ok, err, panic, errorf, error_text}
use dwh.Env.Calls.{Reply, reply, failure, Fetched}
use dwh.ImageStorage.{Bytes, ImageStoreRequest, ImageCheckSumRequest}
use dwh.ImageStorage.Handlers.{Flags, unmarshal_response}

-- `dwh_common.Resolution{}`
abbrev pub original : Resolution
original = record { width = 0; height = 0 }

-- Write, Flush and Close of a gzip.Writer, by the first that fails.
pub data Gzip : Type 0 where
  bad_write : String → Gzip
  bad_flush : String → Gzip
  bad_close : String → Gzip
  zipped : Bytes → Gzip

-- The body of an answer, as `ioutil.ReadAll` and `json.Unmarshal` read it.
pub data AnswerBody : Type 0 where
  unread : String → AnswerBody
  not_json : String → AnswerBody
  flags : Flags → AnswerBody

-- client.Post: an error, or a status and a body.
pub data Posted : Type 0 where
  not_posted : String → Posted
  posted : ℕ → AnswerBody → Posted

-- The web, the libraries of images, and the standard library. `resize` has the number of the
-- interpolation function as its first argument.
pub record Host : Type 1 where
  pub Image : Type 0
  pub get : String → Fetched
  pub is_svg : Bytes → Bool
  pub is_image : Bytes → Bool
  pub match : Bytes → Reply String
  pub bmp : Bytes → Reply Image
  pub webp : Bytes → Reply Image
  pub tiff : Bytes → Reply Image
  pub jpeg : Bytes → Reply Image
  pub gif : Bytes → Reply Image
  pub png : Bytes → Reply Image
  pub resize : ℕ → ℕ → ℕ → Image → Image
  pub encode : Image → Reply Bytes
  pub gzip : Bytes → Gzip
  pub md5 : Bytes → Bytes
  pub decimal : ℕ → String

-- The two requests to the image storage, each with what it leaves of the storage's state.
pub record StorageService : Type 1 where
  pub Storage : Type 0
  pub post_check : ImageCheckSumRequest → Storage → Posted × Storage
  pub post_store : ImageStoreRequest → Storage → Posted × Storage

pub record ImageProcessingWorker : Type 0 where
  pub interpolation_method : ℕ
  pub resolutions : List Resolution

module _ (H : Host) where
  -- The request for a check. It can be marshalled.
  abbrev pub check_request : Bytes → Resolution → TaskInfo → ImageCheckSumRequest
  check_request ba r info = record {
    owner = info.owner;
    token_id = info.token_id;
    width = r.width;
    height = r.height;
    md5_sum = H.md5 ba;
  }

  abbrev pub store_request : Bytes → Resolution → TaskInfo → ImageStoreRequest
  store_request z r info = record {
    owner = info.owner;
    token_id = info.token_id;
    width = r.width;
    height = r.height;
    image_bytes = z;
  }

  module _ (S : StorageService) where
    unfoldable pub check_img_existence :
        Bytes → Resolution → TaskInfo → S.Storage → Reply Bool × S.Storage
    unfolding unmarshal_response
    check_img_existence ba r info s =
        let (p, s') = S.post_check (check_request ba r info) s in
        (
          elim p [
            | not_posted e ↦ failure ("could not post checkSum message, error: " <> e)
            | posted status body ↦
                if status == 200
                then (elim body [
                  | unread e ↦ failure ("could not read checkSum response, error: " <> e)
                  | not_json e ↦ failure ("could not unmarshal checkSum response, error: " <> e)
                  | flags o ↦ reply (unmarshal_response o).image_exists
                ])
                else failure ("check image existence error, code: " <> H.decimal status)
          ],
          s',
        )

    unfoldable pub send_image : Bytes → Resolution → TaskInfo → S.Storage → Outcome ⊤ × S.Storage
    send_image ba r info s = elim (H.gzip ba) [
      | bad_write e ↦ (err (errorf ("gzip write error: " <> e)), s)
      | bad_flush e ↦ (err (errorf ("gzip flush error: " <> e)), s)
      | bad_close e ↦ (err (errorf ("gzip close error: " <> e)), s)
      | zipped z ↦
          let (p, s') = S.post_store (store_request z r info) s in
          (
            elim p [
              | not_posted e ↦ err (errorf ("image store post error: " <> e))
              | posted status _ ↦
                  if status == 200
                  then ok tt
                  else err (errorf ("error storing, status code:  " <> H.decimal status))
            ],
            s',
          )
    ]

    -- A check that fails is logged, and the image is sent.
    unfoldable pub check_and_send_image :
        Bytes → Resolution → TaskInfo → S.Storage → Outcome ⊤ × S.Storage
    unfolding check_img_existence send_image
    check_and_send_image ba r info s =
        let (exists, s1) = check_img_existence ba r info s in
        let (sent, s2) = send_image ba r info s1 in
        let send : Outcome ⊤ × S.Storage = (
          elim sent [
            | ok _ ↦ ok tt
            | err e ↦ err (errorf ("could not send image, error: " <> error_text e))
            | panic ↦ panic
          ],
          s2,
        ) in
        elim exists [ failure _ ↦ send | reply there ↦ if there then (ok tt, s1) else send ]

    unfoldable pub resize_and_send_raster_image :
        ImageProcessingWorker → H.Image → Resolution → TaskInfo → S.Storage → Outcome ⊤ × S.Storage
    unfolding check_and_send_image
    resize_and_send_raster_image irw image r info s =
        elim (H.encode (H.resize irw.interpolation_method r.width r.height image)) [
          | failure e ↦ (err (errorf ("encode image error: " <> e)), s)
          | reply ba ↦ check_and_send_image ba r info s
        ]

    -- The loop over the resolutions.
    unfoldable pub send_all :
        ImageProcessingWorker
        → H.Image
        → List Resolution
        → TaskInfo
        → S.Storage
        → Outcome ⊤ × S.Storage
    unfolding resize_and_send_raster_image
    send_all irw image [] info s = (ok tt, s)
    send_all irw image (r ∷ rs) info s =
        let (sent, s') = resize_and_send_raster_image irw image r info s in
        let rest = send_all irw image rs info s' in
        elim sent [
          | ok _ ↦ rest
          | err e ↦ (err (errorf ("raster image resizeAndSend error: " <> error_text e)), s')
          | panic ↦ (panic, s')
        ]
