-- ===== src/ImageStorage/Handlers.antt =====
-- x/imgstorage/handlers.go, with the answer to a check in x/common/rest.go: what the service answers
-- to its three requests. An answer that cannot be written is logged, and lost on the way.
use Prim.Native.String.{String}
use dwh.Base.{ℕ, Bool, true, false, List, [], ◌∷◌, str_eq, if◌then◌else◌}
use dwh.Env.Action.{Outcome, ok, err, panic}
use dwh.Env.Calls.{Reply, reply, failure}
use dwh.ImageStorage.{
  ImageFile, Disk, Integer, Host, ImageStoreRequest, ImageCheckSumRequest, ImgStorage, store_img,
  load_img, get_check_file,
}

-- The body of a request, as `ioutil.ReadAll` and `json.Unmarshal` read it.
pub data RequestBody (A : Type 0) : Type 0 where
  unread : RequestBody A
  malformed : RequestBody A
  request : A → RequestBody A

-- A JSON object of Booleans.
abbrev pub Flags : Type 0
Flags = List (String × Bool)

pub data Content : Type 0 where
  empty : Content
  text : String → Content
  json : Flags → Content
  served : ImageFile → Content

pub record Response : Type 0 where
  pub status : ℕ
  pub content : Content

pub record ImageCheckSumResponse : Type 0 where
  pub image_exists : Bool

-- json.Marshal of an answer to a check: `omitempty` leaves a false out.
unfoldable pub marshal_response : ImageCheckSumResponse → Flags
marshal_response r = if r.image_exists then ("image_exists", true) ∷ [] else []

abbrev assign_flags : Flags → Bool → Bool
assign_flags [] b = b
assign_flags ((k, v) ∷ o) b = assign_flags o (if str_eq k "image_exists" then v else b)

-- json.Unmarshal into a new answer
unfoldable pub unmarshal_response : Flags → ImageCheckSumResponse
unmarshal_response o = record { image_exists = assign_flags o false }

-- Without a call of `WriteHeader` the status is 200.
abbrev pub answer : ℕ → Content → Outcome Response
answer status content = ok (record { status = status; content = content })

-- The query of LoadHandler.
pub record LoadQuery : Type 0 where
  pub owner : String
  pub img_type : String
  pub width : String
  pub height : String

module _ (H : Host) where
  -- An error of `storeImg` is only logged.
  unfoldable pub store_handler :
      ImgStorage → RequestBody ImageStoreRequest → Disk → Outcome Response × Disk
  store_handler ims unread d = (answer 400 empty, d)
  store_handler ims malformed d = (answer 400 empty, d)
  store_handler ims (request req) d =
      let (r, d') = store_img H ims req d in
      elim r [
        | err e ↦ (answer 200 empty, d')
        | panic ↦ (panic, d')
        | ok _ ↦ (answer 200 empty, d')
      ]

  -- `strconv.Atoi` is the first argument. http.ServeFile is given the path of a file that is there.
  unfoldable pub load_handler : (String → Reply Integer) → LoadQuery → Disk → Outcome Response
  load_handler atoi q d = elim (atoi q.width) [
    | failure _ ↦ answer 400 (text "wrong width")
    | reply width ↦ elim (atoi q.height) [
      | failure _ ↦ answer 400 (text "wrong height")
      | reply height ↦ elim (load_img H q.owner q.img_type width height d) [
        | err e ↦ answer 404 (text "img not found")
        | panic ↦ panic
        | ok f ↦ answer 200 (served f)
      ]
    ]
  ]

  unfoldable pub get_check_sum_handler : RequestBody ImageCheckSumRequest → Disk → Outcome Response
  unfolding marshal_response
  get_check_sum_handler unread d = answer 400 empty
  get_check_sum_handler malformed d = answer 400 empty
  get_check_sum_handler (request req) d =
      answer 200 (json (marshal_response (record { image_exists = get_check_file H req d })))
