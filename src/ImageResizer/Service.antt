-- ===== src/ImageResizer/Service.antt =====
-- The image storage as the worker of x/imgresizer/resizer.go reaches it: the handlers of
-- x/imgstorage/handlers.go behind a network that may fail. Both sides use the same structs, so that
-- a request is read as it was written.
use Prim.Native.String.{String}
use dwh.Env.Action.{Outcome, ok, err, panic}
use dwh.ImageStorage.{Disk, Host, ImageStoreRequest, ImageCheckSumRequest, ImgStorage}
use dwh.ImageStorage.Handlers.{
  Content, empty, text, json, served, Response, request, store_handler, get_check_sum_handler,
}
use dwh.ImageResizer.{AnswerBody, not_json, flags, Posted, not_posted, posted, StorageService}

-- What becomes of a request: it is answered, it does not arrive, or its answer is lost.
pub data Delivery : Type 0 where
  answered : Delivery
  refused : String → Delivery
  lost : String → Delivery

pub record Network : Type 0 where
  pub check : ImageCheckSumRequest → Delivery
  pub store : ImageStoreRequest → Delivery

-- What the client reads of a body as JSON.
abbrev pub read_content : Content → AnswerBody
read_content empty = not_json "unexpected end of JSON input"
read_content (text s) = not_json "invalid character"
read_content (json o) = flags o
read_content (served f) = not_json "invalid character"

-- The server closes the connection of a handler that panics.
abbrev pub read_response : Outcome Response → Posted
read_response (ok r) = posted r.status (read_content r.content)
read_response (err e) = not_posted "EOF"
read_response panic = not_posted "EOF"

abbrev pub storage_service : Host → ImgStorage → Network → StorageService
storage_service G ims N = record {
  Storage = Disk;
  post_check = λ q d. elim (N.check q) [
    | refused e ↦ (not_posted e, d)
    | lost e ↦ (not_posted e, d)
    | answered ↦ (read_response (get_check_sum_handler G (request q) d), d)
  ];
  post_store = λ q d.
      let (r, d') = store_handler G ims (request q) d in
      elim (N.store q) [
        | refused e ↦ (not_posted e, d)
        | lost e ↦ (not_posted e, d')
        | answered ↦ (read_response r, d')
      ];
}
